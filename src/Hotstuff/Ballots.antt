-- ===== src/Hotstuff/Ballots.antt =====
-- The votes among the effects of a replica, and ascending lists of heights.
use mathlib.Core.List.{append-nil}
use blsmr.Prelude.{ℕ, ◌≡◌, refl, ap, ◌∙◌, ◌<◌, ◌≤◌, List, [], ◌∷◌, ◌++◌, arith}
use blsmr.Effect.{Effect, send, broadcast, timer, send_many}
use blsmr.Submission.{SubmittedCommand}
use blsmr.Hotstuff.{HsMessage, submit, propose, vote}

-- The heights of the votes among the effects.
abbrev pub votes_of : List (Effect HsMessage) → List ℕ
votes_of [] = []
votes_of (send to (vote node) ∷ effects) = node.height ∷ votes_of effects
votes_of (send to (propose node) ∷ effects) = votes_of effects
votes_of (send to (submit c) ∷ effects) = votes_of effects
votes_of (broadcast m ∷ effects) = votes_of effects
votes_of (timer delay id ∷ effects) = votes_of effects

pub votes_of-append :
    (xs ys : List (Effect HsMessage)) → votes_of (xs ++ ys) ≡ votes_of xs ++ votes_of ys
votes_of-append [] ys = refl
votes_of-append (send to (vote node) ∷ xs) ys = ap (λ l. node.height ∷ l) (votes_of-append xs ys)
votes_of-append (send to (propose node) ∷ xs) ys = votes_of-append xs ys
votes_of-append (send to (submit c) ∷ xs) ys = votes_of-append xs ys
votes_of-append (broadcast m ∷ xs) ys = votes_of-append xs ys
votes_of-append (timer delay id ∷ xs) ys = votes_of-append xs ys

abbrev pub AllAbove : ℕ → List ℕ → Type 0
AllAbove a [] = Unit {0}
AllAbove a (b ∷ l) = (a < b) × AllAbove a l

abbrev pub Ascending : List ℕ → Type 0
Ascending [] = Unit {0}
Ascending (a ∷ l) = AllAbove a l × Ascending l

abbrev pub AllWithin : ℕ → List ℕ → Type 0
AllWithin b [] = Unit {0}
AllWithin b (a ∷ l) = (a ≤ b) × AllWithin b l

AllAbove-snoc : (a b : ℕ) (l : List ℕ) → AllAbove a l → a < b → AllAbove a (l ++ b ∷ [])
AllAbove-snoc a b [] h lt = (lt, tt)
AllAbove-snoc a b (c ∷ l) h lt = (h.0, AllAbove-snoc a b l h.1 lt)

pub Ascending-snoc :
    (b v : ℕ) (l : List ℕ) → AllWithin b l → Ascending l → b < v → Ascending (l ++ v ∷ [])
Ascending-snoc b v [] w s lt = (tt, tt)
Ascending-snoc b v (a ∷ l) w s lt =
    (AllAbove-snoc a v l s.0 (omega arith), Ascending-snoc b v l w.1 s.1 lt)

pub AllWithin-snoc : (b v : ℕ) (l : List ℕ) → AllWithin b l → b ≤ v → AllWithin v (l ++ v ∷ [])
AllWithin-snoc b v [] w le = (omega arith, tt)
AllWithin-snoc b v (a ∷ l) w le = (omega arith, AllWithin-snoc b v l w.1 le)

pub votes_of_quiet :
    (told quiet : List (Effect HsMessage))
    → votes_of quiet ≡ []
    → votes_of (told ++ quiet) ≡ votes_of told
votes_of_quiet told quiet e =
    votes_of-append told quiet ∙ ap (λ l. votes_of told ++ l) e ∙ append-nil (votes_of told)

pub votes_of-send_many :
    (receivers : List ℕ) (c : SubmittedCommand) → votes_of (send_many receivers (submit c)) ≡ []
unfolding send_many
votes_of-send_many [] c = refl
votes_of-send_many (to ∷ receivers) c = votes_of-send_many receivers c
