-- ===== src/Command/Tests.antt =====
-- Runs of the parser and the completer, and each theorem at an input that meets its hypotheses.
use ircord_client.Base.{◌≡◌, refl, none, some, [], ◌∷◌, Text, codes, text_lt, arith, ◌%◌, ◌+◌}
use ircord_client.Base.Sort.{sort, insert_sorted}
use ircord_client.Command.{
  parse_command, build_candidates, matching, known_commands, new_completer, lower, candidate,
  tokens, command_of, starts_with,
}
use ircord_client.Command.Parsing.{parse_command-spaced}
use ircord_client.Command.Cycling.{Request, press, after, candidates_for, press-after}

-- The name keeps its slash and goes to lower case, the arguments keep theirs.
join_read :
    parse_command (codes "/JOIN  #Dev\t")
    ≡ some (record { name = codes "/join"; args = codes "#Dev" ∷ [] })
unfolding parse_command tokens command_of lower
join_read = refl

blank_read : parse_command (codes "/ ") ≡ none
unfolding parse_command tokens command_of
blank_read = refl

me_found : build_candidates (codes "/me") [] [] known_commands ≡ codes "/me " ∷ []
unfolding build_candidates matching lower starts_with sort insert_sorted
me_found = refl

parse_command-spaced_example :
    parse_command (codes "/MSG bob hi")
    ≡ some (record { name = lower (codes "/MSG"); args = codes "bob" ∷ codes "hi" ∷ [] })
parse_command-spaced_example =
    parse_command-spaced (codes "MSG") (codes "bob" ∷ codes "hi" ∷ [])
      (refl, (refl, (refl, (refl, tt))))
      ((refl, (refl, (refl, (refl, tt)))), ((refl, (refl, (refl, tt))), tt))

abbrev typed : Text → Request
typed s = record {
  partial = s;
  users = codes "bob" ∷ codes "alice" ∷ codes "Bo" ∷ [];
  channels = [];
  commands = known_commands;
}

press-after_example :
    (press (typed (codes "bob: ")) (after (typed (codes "b") ∷ []) new_completer)).0
    ≡ candidate (candidates_for (typed (codes "b"))) ((1 + 0) % 2)
unfolding build_candidates matching lower starts_with sort insert_sorted text_lt
press-after_example =
    press-after (typed (codes "b")) [] (typed (codes "bob: ")) new_completer refl (omega arith)
