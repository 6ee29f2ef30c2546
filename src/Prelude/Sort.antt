-- ===== src/Prelude/Sort.antt =====
-- `sort.Strings`, and what a sorted list keeps of the list that it came from.
use gpufleet_agent.Prelude.{
  String, ◌≡◌, true, List, [], ◌∷◌, ◌⊎◌, inl, inr, arith, if◌then◌else◌, Bool-cases, All, Any,
}
use gpufleet_agent.Prelude.Order.{str_le, str_le_trans, str_le_total, str_le_antisymm}

pub insert_sorted : String → List String → List String
insert_sorted x [] = x ∷ []
insert_sorted x (y ∷ ys) = if str_le x y then x ∷ y ∷ ys else y ∷ insert_sorted x ys

-- Equal texts cannot be told apart, so every sorting algorithm gives this list.
unfoldable pub sort_strings : List String → List String
unfolding insert_sorted str_le
sort_strings [] = []
sort_strings (x ∷ xs) = insert_sorted x (sort_strings xs)

-- `x` is not above the first element.
abbrev pub IsBelow : String → List String → Type 0
IsBelow x [] = Unit
IsBelow x (y ∷ ys) = str_le x y ≡ true

abbrev pub IsSorted : List String → Type 0
IsSorted [] = Unit
IsSorted (x ∷ xs) = IsBelow x xs × IsSorted xs

insert_sorted-IsBelow :
    (y x : String) (l : List String)
    → str_le y x ≡ true
    → IsBelow y l
    → IsBelow y (insert_sorted x l)
unfolding insert_sorted
insert_sorted-IsBelow y x [] h k = h
insert_sorted-IsBelow y x (z ∷ l) h k = ground arith

insert_sorted-IsSorted : (x : String) (l : List String) → IsSorted l → IsSorted (insert_sorted x l)
unfolding insert_sorted
insert_sorted-IsSorted x [] h = (tt, tt)
insert_sorted-IsSorted x (y ∷ l) (b, h) = elim (Bool-cases (str_le x y)) [
  | inl le ↦ rw le (le, (b, h))
  | inr gt ↦
      rw gt (insert_sorted-IsBelow y x l (str_le_total x y gt) b, insert_sorted-IsSorted x l h)
]

pub sort_strings-IsSorted : (l : List String) → IsSorted (sort_strings l)
unfolding sort_strings
sort_strings-IsSorted [] = tt
sort_strings-IsSorted (x ∷ l) = insert_sorted-IsSorted x _ (sort_strings-IsSorted l)

-- The order of insertion does not show: a map may be walked in any order before its keys are
-- sorted.
pub insert_sorted_comm :
    (x y : String) (l : List String)
    → insert_sorted x (insert_sorted y l) ≡ insert_sorted y (insert_sorted x l)
unfolding insert_sorted
insert_sorted_comm x y [] = ground (arith, str_le_total x y, str_le_antisymm x y)
insert_sorted_comm x y (z ∷ l) = ground (
  arith,
  insert_sorted_comm x y l,
  str_le_total x y,
  str_le_antisymm x y,
  str_le_trans x y z,
  str_le_trans y x z,
)

module _ (P : String → Type 0) where
  All-insert_sorted : (x : String) (l : List String) → P x → All P l → All P (insert_sorted x l)
  unfolding insert_sorted
  All-insert_sorted x [] p h = (p, tt)
  All-insert_sorted x (y ∷ l) p (q, h) = elim (Bool-cases (str_le x y)) [
    | inl le ↦ rw le (p, (q, h))
    | inr gt ↦ rw gt (q, All-insert_sorted x l p h)
  ]

  pub All-sort_strings : (l : List String) → All P l → All P (sort_strings l)
  unfolding sort_strings
  All-sort_strings [] h = tt
  All-sort_strings (x ∷ l) (p, h) = All-insert_sorted x _ p (All-sort_strings l h)

  Any-insert_sorted : (x : String) (l : List String) → P x ⊎ Any P l → Any P (insert_sorted x l)
  unfolding insert_sorted
  Any-insert_sorted x [] h = h
  Any-insert_sorted x (y ∷ l) h = elim (Bool-cases (str_le x y)) [
    | inl le ↦ rw le h
    | inr gt ↦ rw gt (past y x l h (Any-insert_sorted x l))
  ]
    where
      past :
          (y x : String) (l : List String)
          → P x ⊎ Any P (y ∷ l)
          → (P x ⊎ Any P l → Any P (insert_sorted x l))
          → Any P (y ∷ insert_sorted x l)
      past y x l (inl p) ih = inr (ih (inl p))
      past y x l (inr (inl q)) ih = inl q
      past y x l (inr (inr r)) ih = inr (ih (inr r))

  pub Any-sort_strings : (l : List String) → Any P l → Any P (sort_strings l)
  unfolding sort_strings
  Any-sort_strings (x ∷ l) (inl p) = Any-insert_sorted x _ (inl p)
  Any-sort_strings (x ∷ l) (inr h) = Any-insert_sorted x _ (inr (Any-sort_strings l h))
  Any-sort_strings [] h = elim h [ ]
