-- ===== src/Runtime/Graph/Reaches.antt =====
-- What it is to descend from a commit, and the ids that the walks of the commit graph reach
-- (src/runtime.rs).
use mathlib.Core.List.{reverse, reverse-append}
use mathlib.Core.Logic.{ite}
use rollforward.Prelude.{
  ℕ, zero, suc, Ord, String, true, false, ◌||◌, ◌≡◌, ◌≢◌, ◌↔◌, ◌⊎◌, inl, inr, refl, sym, ◌∙◌, some,
  List, [], ◌∷◌, ◌++◌, arith, list_eq, nat_eq, list_ord, nat_ord, Bool-cases,
}
use rollforward.Collections.BTreeSet
use rollforward.Collections.BTreeSet.{member}
use rollforward.Runtime.State.{reach}

-- An id comes from another one through parents, in any number of steps.
pub data Descends (edges : String → List String) : String → String → Type 0 where
  here : (id : String) → Descends edges id id
  through :
      (id parent ancestor : String)
      → member parent (edges id) ≡ true
      → Descends edges parent ancestor
      → Descends edges id ancestor

member-reverse : (k : String) (l : List String) → member k (reverse l) ≡ member k l
unfolding member
member-reverse k [] = refl
member-reverse k (j ∷ l) =
    rw (reverse-append (j ∷ []) l)
      (ground (arith, BTreeSet.member-append k (reverse l) (j ∷ []), member-reverse k l))

abbrev pub string_ord : Ord String
string_ord = list_ord

pub member_nil : (j : String) → member j [] ≡ false
unfolding member
member_nil j = refl

pub member-cons :
    (j id : String) (l : List String)
    → member j (id ∷ l) ≡ ite (string_ord.eq.dec id j) true (member j l)
unfolding member
member-cons j id l = refl

module _ (edges : String → List String) where
  -- Whatever is behind a visited id is visited, or waits on the stack.
  abbrev Closing : List String → List String → Type 0
  Closing pending visited =
      (v p : String)
      → member v visited ≡ true
      → member p (edges v) ≡ true
      → (member p visited || member p pending) ≡ true

  module _ (id : String) (pending visited : List String) where
    Closing-skip :
        member id visited ≡ true → Closing (id ∷ pending) visited → Closing pending visited
    unfolding member
    Closing-skip seen c v p hv hp = ground (arith, c v p hv hp)

    Closing-enter :
        Closing (id ∷ pending) visited
        → Closing (reverse (edges id) ++ pending) (BTreeSet.insert id visited)
    unfolding member
    Closing-enter c v p hv hp = ground (
      arith,
      c v p,
      BTreeSet.member-insert id v visited,
      BTreeSet.member-insert id p visited,
      BTreeSet.member-append p (reverse (edges id)) pending,
      member-reverse p (edges id),
    )

  module _ (fuel : ℕ) (id : String) (pending visited : List String) where
    pub reach-skip :
        member id visited ≡ true
        → reach edges (suc fuel) (id ∷ pending) visited ≡ reach edges fuel pending visited
    unfolding reach
    reach-skip h = rw h

    pub reach-enter :
        member id visited ≡ false
        → reach edges (suc fuel) (id ∷ pending) visited
          ≡ reach edges fuel (reverse (edges id) ++ pending) (BTreeSet.insert id visited)
    unfolding reach
    reach-enter h = rw h

  pub reach_nil :
      (fuel : ℕ) (visited result : List String)
      → reach edges (suc fuel) [] visited ≡ some result
      → visited ≡ result
  unfolding reach
  reach_nil fuel visited result e = ground (arith, e)

  pub reach_zero :
      (pending visited result : List String) → reach edges 0 pending visited ≢ some result
  unfolding reach
  reach_zero pending visited result e = grind (arith, e)

  -- All that is on the stack or visited is in the result.
  pub reach-includes :
      (fuel : ℕ) (pending visited result : List String) (j : String)
      → reach edges fuel pending visited ≡ some result
      → (member j visited || member j pending) ≡ true
      → member j result ≡ true
  reach-includes zero pending visited result j e h = absurd (reach_zero pending visited result e)
  reach-includes (suc fuel) [] visited result j e h =
      ground (arith, reach_nil fuel visited result e, member_nil j)
  reach-includes (suc fuel) (id ∷ pending) visited result j e h = ground (
    arith,
    reach-skip fuel id pending visited,
    reach-enter fuel id pending visited,
    reach-includes fuel pending visited result j,
    reach-includes fuel (reverse (edges id) ++ pending) (BTreeSet.insert id visited) result j,
    BTreeSet.member-insert id j visited,
    BTreeSet.member-append j (reverse (edges id)) pending,
    member-cons j id pending,
  )

  reach-closed :
      (fuel : ℕ) (pending visited result : List String)
      → Closing pending visited
      → reach edges fuel pending visited ≡ some result
      → (v p : String) → member v result ≡ true
      → member p (edges v) ≡ true
      → member p result ≡ true
  reach-closed zero pending visited result c e v p hv hp =
      absurd (reach_zero pending visited result e)
  reach-closed (suc fuel) [] visited result c e v p hv hp =
      let same = reach_nil fuel visited result e in
      ground (arith, member_nil p, c v p (rw same hv) hp)
  reach-closed (suc fuel) (id ∷ pending) visited result c e v p hv hp =
      elim (Bool-cases (member id visited)) [
        | inl seen ↦
            reach-closed fuel pending visited result (Closing-skip id pending visited seen c)
              (sym (reach-skip fuel id pending visited seen) ∙ e) v p hv hp
        | inr fresh ↦
            reach-closed fuel (reverse (edges id) ++ pending) (BTreeSet.insert id visited) result
              (Closing-enter id pending visited c)
              (sym (reach-enter fuel id pending visited fresh) ∙ e) v p hv hp
      ]

  -- An id that was visited, or that one on the stack descends from.
  abbrev From : String → List String → List String → Type 0
  From j pending visited =
      (member j visited ≡ true) ⊎ ((c : String) × (member c pending ≡ true) × Descends edges c j)

  From-skip :
      (j id : String) (pending visited : List String)
      → From j pending visited
      → From j (id ∷ pending) visited
  From-skip j id pending visited (inl h) = inl h
  From-skip j id pending visited (inr (c, h, d)) =
      inr (c, ground (arith, member-cons c id pending), d)

  member_self : (id : String) (l : List String) → member id (id ∷ l) ≡ true
  member_self id l = ground (arith, member-cons id id l)

  From-enter :
      (j id : String) (pending visited : List String)
      → From j (reverse (edges id) ++ pending) (BTreeSet.insert id visited)
      → From j (id ∷ pending) visited
  From-enter j id pending visited (inl h) = elim (string_ord.eq.dec id j) [
    | yes e ↦ inr (id, member_self id pending, rw e (here j))
    | no n ↦ inl (ground (arith, BTreeSet.member-insert id j visited))
  ]
  From-enter j id pending visited (inr (c, h, d)) = elim (Bool-cases (member c (edges id))) [
    | inl below ↦ inr (id, member_self id pending, through id c j below d)
    | inr n ↦ inr (
      c,
      ground (
        arith,
        BTreeSet.member-append c (reverse (edges id)) pending,
        member-reverse c (edges id),
        member-cons c id pending,
      ),
      d,
    )
  ]

  -- All in the result was visited before, or comes from the stack.
  reach_sound :
      (fuel : ℕ) (pending visited result : List String)
      → reach edges fuel pending visited ≡ some result
      → (j : String) → member j result ≡ true
      → From j pending visited
  reach_sound zero pending visited result e j h = absurd (reach_zero pending visited result e)
  reach_sound (suc fuel) [] visited result e j h = inl (rw (reach_nil fuel visited result e) h)
  reach_sound (suc fuel) (id ∷ pending) visited result e j h =
      elim (Bool-cases (member id visited)) [
        | inl seen ↦ From-skip j id pending visited (
            reach_sound fuel pending visited result
              (sym (reach-skip fuel id pending visited seen) ∙ e) j h)
        | inr fresh ↦ From-enter j id pending visited (
            reach_sound fuel (reverse (edges id) ++ pending) (BTreeSet.insert id visited) result
              (sym (reach-enter fuel id pending visited fresh) ∙ e) j h)
      ]

  -- A walk from one id ends with the ids that it descends from.
  pub reach-Descends :
      (fuel : ℕ) (id : String) (result : List String)
      → reach edges fuel (id ∷ []) [] ≡ some result
      → (j : String) → (member j result ≡ true) ↔ Descends edges id j
  reach-Descends fuel id result e j =
      let included =
        reach-includes fuel (id ∷ []) [] result id e (ground (arith, member_self id [])) in
      let closed =
        reach-closed fuel (id ∷ []) [] result (λ v p hv hp. absurd (ground (arith, member_nil v)))
          e in
      (
        λ h. from_one id j (reach_sound fuel (id ∷ []) [] result e j h),
        closed_descends result closed id j included,
      )
    where
      from_one : (id j : String) → From j (id ∷ []) [] → Descends edges id j
      from_one id j (inl h) = absurd (ground (arith, member_nil j))
      from_one id j (inr (c, h, d)) =
          let same : c ≡ id = ground (arith, member-cons c id [], member_nil c) in rw same at d

      closed_descends :
          (result : List String)
          → ((v p : String)
              → member v result ≡ true
              → member p (edges v) ≡ true
              → member p result ≡ true)
          → (id j : String) → member id result ≡ true
          → Descends edges id j
          → member j result ≡ true
      closed_descends result closed id j h (here _) = h
      closed_descends result closed id j h (through _ parent _ p d) =
          closed_descends result closed parent j (closed id parent h p) d
