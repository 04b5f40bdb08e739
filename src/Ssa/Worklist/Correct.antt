-- ===== src/Ssa/Worklist/Correct.antt =====
-- The worklist of DCE: its measure, and its marks against reachability.
use wasm2go.Prelude.{
  ℕ, zero, suc, ◌+◌, ◌≤◌, ◌<◌, Bool, true, false, not, ◌&&◌, Bool-cases, if◌then◌else◌, ◌==◌,
  ==_iff, List, [], ◌∷◌, In, length, List-cases, ◌≡◌, refl, sym, ap, ◌∙◌, ◌⊎◌, inl, inr, ◌↔◌, arith,
}
use mathlib.Core.Path.{subst}
use wasm2go.Ssa.Func.{update}
use wasm2go.Ssa.Worklist.{Marking, nothing_marked, mark, mark_all, drain, Reach, root, step}

-- The ids below `n` that are not marked.
unmarked : ℕ → (ℕ → Bool) → ℕ
unmarked zero live = 0
unmarked (suc n) live = (if live n then 0 else 1) + unmarked n live

unmarked-outside :
    (n v : ℕ) (live : ℕ → Bool) → n ≤ v → unmarked n (update live v true) ≡ unmarked n live
unfolding unmarked
unmarked-outside zero v live h = refl
unmarked-outside (suc n) v live h = let r = unmarked-outside n v live (omega arith) in ground arith

unmarked-mark :
    (n v : ℕ) (live : ℕ → Bool)
    → v < n
    → live v ≡ false
    → unmarked n (update live v true) + 1 ≡ unmarked n live
unfolding unmarked
unmarked-mark zero v live h e = absurd (omega arith)
unmarked-mark (suc n) v live h e = elim (Bool-cases (n == v)) [
  | inl p ↦
      let q = (==_iff n v).0 p in
      let r = unmarked-outside n v live (omega arith) in ground (arith, rw (sym q) at e)
  | inr p ↦ let r = unmarked-mark n v live (ground arith) e in ground arith
]

unmarked-le : (n : ℕ) (live : ℕ → Bool) → unmarked n live ≤ n
unfolding unmarked
unmarked-le zero live = omega arith
unmarked-le (suc n) live = let r = unmarked-le n live in ground arith

module _ (wanted : ℕ → Bool) (n : ℕ) (small : (v : ℕ) → wanted v ≡ true → v < n) where
  measure : Marking → ℕ
  measure s = unmarked n s.live + length s.work

  mark-measure : (v : ℕ) (s : Marking) → measure (mark wanted v s) ≡ measure s
  unfolding measure
  mark-measure v s = elim (Bool-cases (wanted v && not (s.live v))) [
    | inl e ↦
        let r = unmarked-mark n v s.live (small v (ground arith)) (ground arith) in
        rw e (omega arith)
    | inr e ↦ rw e refl
  ]

  mark_all-measure : (vs : List ℕ) (s : Marking) → measure (mark_all wanted vs s) ≡ measure s
  unfolding mark_all
  mark_all-measure [] s = refl
  mark_all-measure (v ∷ vs) s = mark_all-measure vs (mark wanted v s) ∙ mark-measure v s

  start-measure : (roots : List ℕ) → measure (mark_all wanted roots nothing_marked) ≤ n
  unfolding measure
  start-measure roots =
      omega (arith, mark_all-measure roots nothing_marked, unmarked-le n (λ v. false))

  -- With as many rounds as there are ids, the stack is empty at the end.
  drain-ends :
      (next : ℕ → List ℕ) (fuel : ℕ) (s : Marking)
      → measure s ≤ fuel
      → (drain wanted next fuel s).work ≡ []
  unfolding drain measure
  drain-ends next zero s h = elim (List-cases s.work) [
    | inl e ↦ e
    | inr (v, rest, e) ↦ absurd (omega (arith, ap length e))
  ]
  drain-ends next (suc fuel) s h = elim (List-cases s.work) [
    | inl e ↦ rw (e, drain) e
    | inr (v, rest, e) ↦
        let s' : Marking = record s { work = rest } in
        let p = ap length e in
        rw (e, drain)
          (drain-ends next fuel (mark_all wanted (next v) s')
            (omega (arith, mark_all-measure (next v) s')))
  ]

module _ (wanted : ℕ → Bool) where
  -- What one mark, and a run of them, does to the marks and to the stack.
  record Marked (vs : List ℕ) (s t : Marking) : Type 0 where
    keeps : (u : ℕ) → s.live u ≡ true → t.live u ≡ true
    stays : (u : ℕ) → In u s.work → In u t.work
    done : (a : ℕ) → In a vs → wanted a ≡ true → t.live a ≡ true
    only :
        (u : ℕ) → t.live u ≡ true → (s.live u ≡ true) ⊎ (In u t.work × In u vs × (wanted u ≡ true))
    pushed : ((u : ℕ) → In u s.work → s.live u ≡ true) → (u : ℕ) → In u t.work → t.live u ≡ true

  mark-Marked : (v : ℕ) (s : Marking) → Marked (v ∷ []) s (mark wanted v s)
  mark-Marked v s = elim (Bool-cases (wanted v && not (s.live v))) [
    | inl e ↦ rw e (record {
      keeps = λ u h. ground arith;
      stays = λ u h. inr h;
      done = λ a i w. elim i [ inl p ↦ ground (arith, p) | inr i' ↦ absurd i' ];
      only = λ u h. elim (Bool-cases (u == v)) [
        | inl p ↦ let q = (==_iff u v).0 p in inr (inl q, inl q, rw q (ground arith))
        | inr p ↦ inl (ground arith)
      ];
      pushed =
          λ ok u i. elim i [ inl p ↦ ground (arith, p) | inr i' ↦ let k = ok u i' in ground arith ];
    })
    | inr e ↦ rw e (record {
      keeps = λ u h. h;
      stays = λ u h. h;
      done = λ a i w. elim i [ inl p ↦ ground (arith, p) | inr i' ↦ absurd i' ];
      only = λ u h. inl h;
      pushed = λ ok u i. ok u i;
    })
  ]

  Marked-trans :
      (v : ℕ) (vs : List ℕ) (s t u : Marking)
      → Marked (v ∷ []) s t
      → Marked vs t u
      → Marked (v ∷ vs) s u
  Marked-trans v vs s t u p q = record {
    keeps = λ a h. q.keeps a (p.keeps a h);
    stays = λ a h. q.stays a (p.stays a h);
    done = λ a i w. elim i [ inl e ↦ q.keeps a (p.done a (inl e) w) | inr j ↦ q.done a j w ];
    only = λ a h. elim (q.only a h) [
      | inl l ↦ elim (p.only a l) [ inl k ↦ inl k | inr (i, j, w) ↦ inr (q.stays a i, here j, w) ]
      | inr (i, j, w) ↦ inr (i, inr j, w)
    ];
    pushed = λ ok. q.pushed (p.pushed ok);
  }
    where
      here : {a : ℕ} → In a (v ∷ []) → In a (v ∷ vs)
      here (inl e) = inl e
      here (inr k) = absurd k

  mark_all-Marked : (vs : List ℕ) (s : Marking) → Marked vs s (mark_all wanted vs s)
  unfolding mark_all
  mark_all-Marked [] s = record {
    keeps = λ u h. h;
    stays = λ u h. h;
    done = λ a i. absurd i;
    only = λ u h. inl h;
    pushed = λ ok. ok;
  }
  mark_all-Marked (v ∷ vs) s =
      Marked-trans v vs s (mark wanted v s) (mark_all wanted vs (mark wanted v s)) (mark-Marked v s)
        (mark_all-Marked vs (mark wanted v s))

  module _ (next : ℕ → List ℕ) (roots : List ℕ) where
    -- Between two rounds.
    record Inv (s : Marking) : Type 0 where
      sound : (v : ℕ) → s.live v ≡ true → Reach wanted next roots v
      stacked : (v : ℕ) → In v s.work → s.live v ≡ true
      seeds : (v : ℕ) → In v roots → wanted v ≡ true → s.live v ≡ true
      closed :
          (v : ℕ)
          → s.live v ≡ true
          → In v s.work ⊎ ((a : ℕ) → In a (next v) → wanted a ≡ true → s.live a ≡ true)

    start-Inv : Inv (mark_all wanted roots nothing_marked)
    start-Inv =
        let m = mark_all-Marked roots nothing_marked in
        record {
          sound = λ v h. elim (m.only v h) [ inl k ↦ cc | inr (i, j, w) ↦ root j w ];
          stacked = m.pushed (λ u i. absurd i);
          seeds = m.done;
          closed = λ v h. elim (m.only v h) [ inl k ↦ cc | inr (i, j, w) ↦ inl i ];
        }

    round-Inv :
        (s : Marking) (v : ℕ) (rest : List ℕ)
        → s.work ≡ v ∷ rest
        → Inv s
        → Inv (mark_all wanted (next v) (record s { work = rest }))
    round-Inv s v rest e inv =
        let s' : Marking = record s { work = rest } in
        let m = mark_all-Marked (next v) s' in
        let lives : s.live v ≡ true = inv.stacked v (rw e (inl refl)) in
        record {
          sound = λ u h. elim (m.only u h) [
            | inl k ↦ inv.sound u k
            | inr (i, j, w) ↦ step (inv.sound v lives) j w
          ];
          stacked = m.pushed (λ u i. inv.stacked u (rw e (inr i)));
          seeds = λ u i w. m.keeps u (inv.seeds u i w);
          closed = λ u h. elim (m.only u h) [
            | inr (i, j, w) ↦ inl i
            | inl k ↦ elim (inv.closed u k) [
              | inl i ↦ elim (subst (In u) e i) [
                | inl p ↦ inr (λ a j w. m.done a (subst (λ z. In a (next z)) p j) w)
                | inr j ↦ inl (m.stays u j)
              ]
              | inr f ↦ inr (λ a j w. m.keeps a (f a j w))
            ]
          ];
        }

    drain-Inv : (fuel : ℕ) (s : Marking) → Inv s → Inv (drain wanted next fuel s)
    unfolding drain
    drain-Inv zero s inv = inv
    drain-Inv (suc fuel) s inv = elim (List-cases s.work) [
      | inl e ↦ rw (e, drain) inv
      | inr (v, rest, e) ↦ rw (e, drain) (drain-Inv fuel _ (round-Inv s v rest e inv))
    ]

    Reach-live :
        (s : Marking) → Inv s → s.work ≡ [] → (v : ℕ) → Reach wanted next roots v → s.live v ≡ true
    Reach-live s inv e v (root i w) = inv.seeds v i w
    Reach-live s inv e v (step {u} r i w) = elim (inv.closed u (Reach-live s inv e u r)) [
      | inl j ↦ absurd (subst (In u) e j)
      | inr f ↦ f v i w
    ]

    -- Where the ids that may be marked are below n, the worklist of DCE, started from marked
    -- roots, has after at most n rounds marked an id exactly if the roots reach it through such
    -- ids.
    pub drain-Reach :
        (n : ℕ)
        → ((v : ℕ) → wanted v ≡ true → v < n)
        → (v : ℕ)
        → ((drain wanted next n (mark_all wanted roots nothing_marked)).live v ≡ true)
          ↔ Reach wanted next roots v
    drain-Reach n small v =
        let s = mark_all wanted roots nothing_marked in
        let inv = drain-Inv n s start-Inv in
        let bound : measure wanted n small s ≤ n = start-measure wanted n small roots in
        (
          inv.sound v,
          Reach-live (drain wanted next n s) inv (drain-ends wanted n small next n s bound) v,
        )
