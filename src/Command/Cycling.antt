-- ===== src/Command/Cycling.antt =====
-- Tab after tab: the candidates come in turn, and from the start again.
use ircord_client.Base.{
  ℕ, suc, ◌+◌, ◌%◌, ◌<◌, ◌≡◌, refl, ap, ◌∙◌, true, false, List, [], ◌∷◌, length, Text, arith,
}
use native.Mathlib.Nat.{mod-add-mod}
use ircord_client.Command.{
  TabCompleter, complete, begin_cycle, show_next, candidate, build_candidates,
}

-- What `complete` is given: the typed text, the users, the channels and the commands.
pub record Request : Type 0 where
  pub partial : Text
  pub users : List Text
  pub channels : List Text
  pub commands : List Text

abbrev pub press : Request → TabCompleter → Text × TabCompleter
press r t = complete r.partial r.users r.channels r.commands t

-- The completer after these presses of Tab.
abbrev pub after : List Request → TabCompleter → TabCompleter
after [] t = t
after (r ∷ rs) t = after rs ((press r t).1)

abbrev pub candidates_for : Request → List Text
candidates_for r = build_candidates r.partial r.users r.channels r.commands

-- In a cycle, with these candidates, at this one.
abbrev IsAt : List Text → ℕ → TabCompleter → Type 0
IsAt cs i t = (t.in_cycle ≡ true) × (t.candidates ≡ cs) × (t.cycle_pos ≡ i % length cs)

begin_cycle_on :
    (r : Request) (t : TabCompleter)
    → t.in_cycle ≡ true
    → begin_cycle r.partial r.users r.channels r.commands t ≡ t
unfolding begin_cycle
begin_cycle_on r t on = ground arith

show_next-IsAt :
    (partial : Text) (c : Text) (cs : List Text) (i : ℕ) (t : TabCompleter)
    → IsAt (c ∷ cs) i t
    → ((show_next partial t).0 ≡ candidate (c ∷ cs) (i % length (c ∷ cs)))
      × IsAt (c ∷ cs) (i + 1) ((show_next partial t).1)
unfolding show_next
show_next-IsAt partial c cs i t h =
    rw (h.1)
      (ap (candidate (c ∷ cs)) h.2, (h.0, refl, rw (h.2) (mod-add-mod i (suc (length cs)) 1)))

press-IsAt :
    (cs : List Text) (i : ℕ) (r : Request) (t : TabCompleter)
    → 0 < length cs
    → IsAt cs i t
    → ((press r t).0 ≡ candidate cs (i % length cs)) × IsAt cs (i + 1) ((press r t).1)
unfolding complete
press-IsAt [] i r t room h = absurd (omega arith)
press-IsAt (c ∷ cs) i r t room h = rw (begin_cycle_on r t h.0) (show_next-IsAt r.partial c cs i t h)

first_shown :
    (partial : Text) (cs : List Text)
    → 0 < length cs
    → IsAt cs 1 (
        (show_next partial
          (record { in_cycle = true; stem = partial; candidates = cs; cycle_pos = 0 })).1)
unfolding show_next
first_shown partial [] room = absurd (omega arith)
first_shown partial (c ∷ cs) room = (refl, refl, refl)

begin_cycle_off :
    (r : Request) (t : TabCompleter)
    → t.in_cycle ≡ false
    → begin_cycle r.partial r.users r.channels r.commands t
      ≡ record { in_cycle = true; stem = r.partial; candidates = candidates_for r; cycle_pos = 0 }
unfolding begin_cycle
begin_cycle_off r t off = rw off refl

first-IsAt :
    (first : Request) (t : TabCompleter)
    → t.in_cycle ≡ false
    → 0 < length (candidates_for first)
    → IsAt (candidates_for first) 1 ((press first t).1)
unfolding complete
first-IsAt first t off room =
    rw (begin_cycle_off first t off) (first_shown first.partial (candidates_for first) room)

after-IsAt :
    (cs : List Text) (i : ℕ) (rs : List Request) (t : TabCompleter)
    → 0 < length cs
    → IsAt cs i t
    → IsAt cs (i + length rs) (after rs t)
after-IsAt cs i [] t room h = (h.0, h.1, h.2 ∙ ap (λ n. n % length cs) (omega arith))
after-IsAt cs i (r ∷ rs) t room h =
    let (on, same, at) =
      after-IsAt cs (i + 1) rs ((press r t).1) room (press-IsAt cs i r t room h).1 in
    (on, same, at ∙ ap (λ n. n % length cs) (omega arith))

-- After the first press of Tab outside a cycle, if that found candidates, and any further presses,
-- whatever they ask for, the next press gives the candidate whose turn it is, counting round.
pub press-after :
    (first : Request) (later : List Request) (last : Request) (t : TabCompleter)
    → t.in_cycle ≡ false
    → 0 < length (candidates_for first)
    → (press last (after (first ∷ later) t)).0
      ≡ candidate (candidates_for first) ((1 + length later) % length (candidates_for first))
press-after first later last t off room =
    let cs = candidates_for first in
    (press-IsAt cs (1 + length later) last (after (first ∷ later) t) room
      (after-IsAt cs 1 later ((press first t).1) room (first-IsAt first t off room))).0
