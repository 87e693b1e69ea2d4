-- ===== src/Grading/Rank.antt =====
-- Competition ranking, against its definition by counting.
use schapp.Base.{
  ℕ, ◌+◌, ◌≤◌, ◌<◌, ◌≡◌, refl, sym, ap, ◌∙◌, false, Option, none, some, List, [], ◌∷◌, map, ◌==◌,
  ltb, leb, arith, All, Bool-cases, inl, inr, if◌then◌else◌, ==_iff, ==_refl,
}
use schapp.Grading.{insert_place, ordered, assign, position_of, rank_from, rank}

-- How many values are above one.
abbrev pub above : ℕ → List ℕ → ℕ
above v [] = 0
above v (x ∷ xs) = let rest = above v xs in if ltb v x then rest + 1 else rest

abbrev above_place : ℕ → List (ℕ × ℕ) → ℕ
above_place v [] = 0
above_place v (p ∷ ps) = let rest = above_place v ps in if ltb v p.1 then rest + 1 else rest

-- Places by falling value.
abbrev Falling : List (ℕ × ℕ) → Type 0
Falling [] = Unit
Falling (p ∷ ps) = All (λ (q : ℕ × ℕ). q.1 ≤ p.1) ps × Falling ps

abbrev put : (ℕ → ℕ) → List (ℕ × ℕ) → List (ℕ × ℕ)
put g [] = []
put g (p ∷ ps) = (p.0, g p.1) ∷ put g ps

above_place-zero :
    (v : ℕ) (ps : List (ℕ × ℕ)) → All (λ (q : ℕ × ℕ). q.1 ≤ v) ps → above_place v ps ≡ 0
above_place-zero v [] h = refl
above_place-zero v (p ∷ ps) h = ground (arith, h.0, above_place-zero v ps h.1)

-- What the loop has established when `ps` are the places left.
abbrev Ready : (ℕ → ℕ) → ℕ → Option ℕ → ℕ → List (ℕ × ℕ) → Type 0
Ready g offset none position ps = (v : ℕ) → g v ≡ offset + above_place v ps
Ready g offset (some u) position ps =
    (position ≡ g u)
    × All (λ (q : ℕ × ℕ). q.1 ≤ u) ps
    × ((v : ℕ) → v < u → g v ≡ offset + above_place v ps)

assign-fresh :
    (g : ℕ → ℕ) (offset i v : ℕ) (ps : List (ℕ × ℕ))
    → All (λ (q : ℕ × ℕ). q.1 ≤ v) ps
    → g v ≡ offset + above_place v ((i, v) ∷ ps)
    → g v ≡ offset
assign-fresh g offset i v ps small h = ground (arith, h, above_place-zero v ps small)

step_up :
    (g : ℕ → ℕ) (offset i v w : ℕ) (ps : List (ℕ × ℕ))
    → w < v
    → g w ≡ offset + above_place w ((i, v) ∷ ps)
    → g w ≡ offset + 1 + above_place w ps
step_up g offset i v w ps lt h = ground (arith, h)

assign-put :
    (g : ℕ → ℕ) (offset : ℕ) (previous : Option ℕ) (position : ℕ) (ps : List (ℕ × ℕ))
    → Falling ps
    → Ready g offset previous position ps
    → assign offset previous position ps ≡ put g ps
unfolding assign
assign-put g offset previous position [] f r = refl
assign-put g offset none position ((i, v) ∷ ps) f r =
    let here : g v ≡ offset = assign-fresh g offset i v ps f.0 (r v) in
    rw
      (
        assign-put g (offset + 1) (some v) offset ps f.1
            (sym here, f.0, (λ w lt. step_up g offset i v w ps lt (r w))),
        here,
      )
      refl
assign-put g offset (some u) position ((i, v) ∷ ps) f r = elim (Bool-cases (v == u)) [
  | inl e ↦
      let same : v ≡ u = (==_iff v u).0 e in
      rw
        (
          e,
          assign-put g (offset + 1) (some u) position ps f.1
              (r.0, r.1.1, (λ w lt. step_up g offset i v w ps (rw same lt) (r.2 w lt))),
        )
        (ap (λ k. (i, k) ∷ put g ps) (r.0 ∙ ap g (sym same)))
  | inr e ↦
      let lt : v < u = ground (arith, r.1.0) in
      let here : g v ≡ offset = assign-fresh g offset i v ps f.0 (r.2 v lt) in
      rw
        (
          e,
          assign-put g (offset + 1) (some v) offset ps f.1
              (sym here, f.0, (λ w less. step_up g offset i v w ps less (r.2 w (omega arith)))),
          here,
        )
        refl
]

-- What holds of a new place and of all others holds with the place among them.
All-insert_place :
    (P : ℕ × ℕ → Type 0) (p : ℕ × ℕ) (ps : List (ℕ × ℕ))
    → P p
    → All P ps
    → All P (insert_place p ps)
unfolding insert_place
All-insert_place P p [] h hs = (h, tt)
All-insert_place P p (q ∷ qs) h hs = elim (Bool-cases (leb q.1 p.1)) [
  | inl e ↦ rw e (h, hs)
  | inr e ↦ rw e (hs.0, All-insert_place P p qs h hs.1)
]

All-weaken :
    (P Q : ℕ × ℕ → Type 0) (ps : List (ℕ × ℕ)) → ((p : ℕ × ℕ) → P p → Q p) → All P ps → All Q ps
All-weaken P Q [] f h = tt
All-weaken P Q (p ∷ ps) f h = (f p h.0, All-weaken P Q ps f h.1)

insert_place-Falling : (p : ℕ × ℕ) (ps : List (ℕ × ℕ)) → Falling ps → Falling (insert_place p ps)
unfolding insert_place
insert_place-Falling p [] f = (tt, tt)
insert_place-Falling p (q ∷ qs) f = elim (Bool-cases (leb q.1 p.1)) [
  | inl e ↦
      let le : q.1 ≤ p.1 = ground arith in
      rw e ((le, All-weaken (λ r. r.1 ≤ q.1) (λ r. r.1 ≤ p.1) qs (λ r h. omega arith) f.0), f)
  | inr e ↦
      let le : p.1 ≤ q.1 = ground arith in
      rw e (All-insert_place (λ r. r.1 ≤ q.1) p qs le f.0, insert_place-Falling p qs f.1)
]

ordered-Falling : (i : ℕ) (vs : List ℕ) → Falling (ordered i vs)
unfolding ordered
ordered-Falling i [] = tt
ordered-Falling i (v ∷ vs) =
    insert_place-Falling (i, v) (ordered (i + 1) vs) (ordered-Falling (i + 1) vs)

ordered-indices : (i : ℕ) (vs : List ℕ) → All (λ (q : ℕ × ℕ). i ≤ q.0) (ordered i vs)
unfolding ordered
ordered-indices i [] = tt
ordered-indices i (v ∷ vs) =
    All-insert_place (λ q. i ≤ q.0) (i, v) (ordered (i + 1) vs) (omega arith)
      (All-weaken (λ q. i + 1 ≤ q.0) (λ q. i ≤ q.0) (ordered (i + 1) vs) (λ q h. omega arith)
        (ordered-indices (i + 1) vs))

above-insert_place :
    (v : ℕ) (p : ℕ × ℕ) (ps : List (ℕ × ℕ))
    → above_place v (insert_place p ps) ≡ above_place v (p ∷ ps)
unfolding insert_place
above-insert_place v p [] = refl
above-insert_place v p (q ∷ qs) = ground (arith, above-insert_place v p qs)

above-ordered : (v i : ℕ) (vs : List ℕ) → above_place v (ordered i vs) ≡ above v vs
unfolding ordered
above-ordered v i [] = refl
above-ordered v i (x ∷ xs) =
    above-insert_place v (i, x) (ordered (i + 1) xs)
    ∙ ap (λ n. if ltb v x then n + 1 else n) (above-ordered v (i + 1) xs)

-- A new place among others with other indices is found at its own.
position_of-insert :
    (g : ℕ → ℕ) (j i v : ℕ) (ps : List (ℕ × ℕ))
    → All (λ (q : ℕ × ℕ). i + 1 ≤ q.0) ps
    → position_of j (put g (insert_place (i, v) ps))
      ≡ (if i == j then g v else position_of j (put g ps))
unfolding position_of insert_place
position_of-insert g j i v [] h = refl
position_of-insert g j i v (q ∷ qs) h = ground (arith, h.0, position_of-insert g j i v qs h.1)

skip :
    (g : ℕ → ℕ) (i j v : ℕ) (vs : List ℕ)
    → i + 1 ≤ j
    → (if i == j then g v else position_of j (put g (ordered (i + 1) vs)))
      ≡ position_of j (put g (ordered (i + 1) vs))
skip g i j v vs le = let other : (i == j) ≡ false = ground arith in rw other refl

rank_from-map :
    (g : ℕ → ℕ) (i : ℕ) (vs : List ℕ) (positions : List (ℕ × ℕ))
    → ((j : ℕ) → i ≤ j → position_of j positions ≡ position_of j (put g (ordered i vs)))
    → rank_from i vs positions ≡ map g vs
unfolding rank_from ordered
rank_from-map g i [] positions h = refl
rank_from-map g i (v ∷ vs) positions h =
    let known =
      λ (j : ℕ). position_of-insert g j i v (ordered (i + 1) vs) (ordered-indices (i + 1) vs) in
    let here : position_of i positions ≡ g v = h i (omega arith) ∙ known i ∙ rw (==_refl i) refl in
    rw
      (
        here,
        rank_from-map g (i + 1) vs positions
            (λ j le. h j (omega arith) ∙ known j ∙ skip g i j v vs le),
      )
      refl

-- `rank` gives every value one more than the number of values above it, in the order of the values:
-- equal values share a position, and the positions after them are skipped.
pub rank_lem : (values : List ℕ) → rank values ≡ map (λ v. above v values + 1) values
unfolding rank
rank_lem values =
    let g : ℕ → ℕ = λ v. above v values + 1 in
    ap (rank_from 0 values) (
      assign-put g 1 none 0 (ordered 0 values) (ordered-Falling 0 values)
        (λ v. omega (arith, above-ordered v 0 values)))
    ∙ rank_from-map g 0 values (put g (ordered 0 values)) (λ j le. refl)
