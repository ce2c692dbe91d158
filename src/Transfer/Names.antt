-- ===== src/Transfer/Names.antt =====
-- What `upload` in src/file/file_transfer.cpp reads off a path.
use ircord_client.Base.{◌||◌, [], ◌∷◌, ◌++◌, ◌==◌, if◌then◌else◌, is_empty, Text, codes, text_eq}

-- `path.filename()`: what stands behind the last slash.
unfoldable pub filename_of : Text → Text → Text
filename_of seen [] = seen
filename_of seen (c ∷ path) = filename_of (if c == b'/' then [] else seen ++ (c ∷ [])) path

-- `path.extension()`: from the last dot of the name on, unless the dot is its first character.
unfoldable pub extension_of : Text → Text → Text
extension_of seen [] = seen
extension_of seen (c ∷ name) =
    extension_of (if c == b'.' then c ∷ [] else if is_empty seen then [] else seen ++ (c ∷ [])) name

abbrev pub extension : Text → Text
extension [] = []
extension (c ∷ name) = extension_of [] name

unfoldable pub mime_type_of : Text → Text
mime_type_of ext =
    if text_eq ext (codes ".txt")
    then codes "text/plain"
    else if text_eq ext (codes ".jpg") || text_eq ext (codes ".jpeg")
    then codes "image/jpeg"
    else if text_eq ext (codes ".png")
    then codes "image/png"
    else if text_eq ext (codes ".gif")
    then codes "image/gif"
    else if text_eq ext (codes ".pdf")
    then codes "application/pdf"
    else codes "application/octet-stream"
