-- ===== src/Store/Writer/Serial.antt =====
-- What a batch promises its callers: its commands run one after the other, each whole or not at all.
use messq.Common.{
  suc, ◌≡◌, refl, ap, length, List, [], ◌∷◌, ◌++◌, Bool, true, false, ◌||◌, none, some, Result, ok,
  err,
}
use messq.Queue.Types.{Time}
use messq.Store.Writer.Command.{Failure, apply_command}
use messq.Store.Writer.Commit.{Request, rejection}

pub record Served (S R V : Type 0) : Type 0 where
  pub state : S
  pub answers : List (Request S R V)
  pub events : List V

module _ {S R V : Type 0} where
  abbrev pub serve :
      Request S R V → S → S × Result Failure (R × List V) → (S → Served S R V) → Served S R V
  serve r s (after, ok (res, evs)) next =
      let rest = next after in
      record {
        state = rest.state;
        answers = record r { res = some res; done = true } ∷ rest.answers;
        events = evs ++ rest.events;
      }
  serve r s (after, err e) next =
      let rest = next s in
      record {
        state = rest.state;
        answers = record r { error = some (rejection e); done = true } ∷ rest.answers;
        events = rest.events;
      }

  -- A command that fails leaves the state as it was, and is answered its own failure.
  unfoldable pub serial : Time → S → List (Request S R V) → Served S R V
  unfolding apply_command
  serial now s [] = record { state = s; answers = []; events = [] }
  serial now s (r ∷ rs) = serve r s (apply_command r.cmd s now) (λ s. serial now s rs)

  length-serve :
      (r : Request S R V) (rs : List (Request S R V)) (s : S)
      (answer : S × Result Failure (R × List V)) (next : S → Served S R V)
      → ((s : S) → length (next s).answers ≡ length rs)
      → length (serve r s answer next).answers ≡ suc (length rs)
  length-serve r rs s (after, ok (res, evs)) next h = ap suc (h after)
  length-serve r rs s (after, err e) next h = ap suc (h s)

  -- Everyone is answered.
  pub length-answers :
      (now : Time) (s : S) (rs : List (Request S R V))
      → length (serial now s rs).answers ≡ length rs
  unfolding serial
  length-answers now s [] = refl
  length-answers now s (r ∷ rs) =
      length-serve r rs s (apply_command r.cmd s now) _ (λ u. length-answers now u rs)

  -- Requests that nothing has answered yet.
  abbrev pub AllFresh : List (Request S R V) → Type 0
  AllFresh [] = Unit
  AllFresh (r ∷ rs) = (r.error ≡ none) × (r.done ≡ false) × AllFresh rs

  abbrev pub any_rejected : List (Request S R V) → Bool
  any_rejected [] = false
  any_rejected (r ∷ rs) = elim r.error [ none ↦ any_rejected rs | some e ↦ true ]

  -- A caller has left before the commit.
  abbrev pub any_done : List (Request S R V) → Bool
  any_done [] = false
  any_done (r ∷ rs) = r.done || any_done rs

  pub Fresh-not_done : (rs : List (Request S R V)) → AllFresh rs → ¬ (any_done rs ≡ true)
  Fresh-not_done [] f h = cc
  Fresh-not_done (r ∷ rs) (e, d, f) h = Fresh-not_done rs f (rw d at h)
