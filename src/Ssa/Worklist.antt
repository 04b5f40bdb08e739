-- ===== src/Ssa/Worklist.antt =====
-- The worklist of DCE (mark, and the loop over work) and of removeUnreachable: a set of marked ids and
-- a stack of those whose successors are still to be looked at.
pub mod Correct
use wasm2go.Prelude.{
  ℕ, zero, suc, ◌+◌, Bool, true, false, not, ◌&&◌, if◌then◌else◌, List, [], ◌∷◌, In, ◌≡◌,
}
use wasm2go.Ssa.Func.{update}

-- The top of the stack is the head of `work`.
pub record Marking : Type 0 where
  pub live : ℕ → Bool
  pub work : List ℕ

abbrev pub nothing_marked : Marking
nothing_marked = record { live = λ v. false; work = [] }

module _ (wanted : ℕ → Bool) where
  abbrev pub mark : ℕ → Marking → Marking
  mark v s =
      if wanted v && not (s.live v)
      then record { live = update s.live v true; work = v ∷ s.work }
      else s

  unfoldable pub mark_all : List ℕ → Marking → Marking
  mark_all [] s = s
  mark_all (v ∷ vs) s = mark_all vs (mark v s)

  module _ (next : ℕ → List ℕ) where
    -- The loop, for at most so many rounds.
    unfoldable pub drain : ℕ → Marking → Marking
    unfolding mark_all
    drain zero s = s
    drain (suc fuel) s = elim s.work [
      | [] ↦ s
      | v ∷ rest ↦ drain fuel (mark_all (next v) (record s { work = rest }))
    ]

    -- What the marks are meant to be.
    pub data Reach (roots : List ℕ) : ℕ → Type 0 where
      root : {v : ℕ} → In v roots → wanted v ≡ true → Reach roots v
      step : {u v : ℕ} → Reach roots u → In v (next u) → wanted v ≡ true → Reach roots v
