-- ===== src/Alarm/Multimap.antt =====
-- `std::multimap<int64_t, AlarmCB*>` and `std::unordered_set<AlarmCB*>`, as the alarm queue uses
-- them.
use nginx_quic_stack.Base.{
  ℕ, ◌+◌, ◌≤◌, ◌<◌, ◌≡◌, refl, List, [], ◌∷◌, if◌then◌else◌, ◌==◌, ◌||◌, Bool, false, arith,
  Bool-cases, inl, inr, Option, none, some, Option-cases,
}
use nginx_quic_stack.Base.Int.{ℤ, leb_ℤ, ◌≤ℤ◌}

pub record Entry : Type 0 where
  pub timeout : ℤ
  pub cb : ℕ
  pub node : ℕ

-- `insert` and `emplace` put a new node behind those with the same key.
unfoldable pub insert : Entry → List Entry → List Entry
insert e [] = e ∷ []
insert e (x ∷ xs) = if leb_ℤ x.timeout e.timeout then x ∷ insert e xs else e ∷ x ∷ xs

-- `erase` of an iterator.
unfoldable pub erase : ℕ → List Entry → List Entry
erase n [] = []
erase n (x ∷ xs) = if x.node == n then xs else x ∷ erase n xs

-- What an iterator points at.
unfoldable pub find : ℕ → List Entry → Option Entry
find n [] = none
find n (x ∷ xs) = if x.node == n then some x else find n xs

-- `begin()`; `none` is `end()`.
unfoldable pub begin : List Entry → Option ℕ
begin [] = none
begin (x ∷ xs) = some x.node

-- `++i`.
unfoldable pub next : ℕ → List Entry → Option ℕ
unfolding begin
next n [] = none
next n (x ∷ xs) = if x.node == n then begin xs else next n xs

-- The set of alarms.
unfoldable pub member : ℕ → List ℕ → Bool
member a [] = false
member a (x ∷ xs) = x == a || member a xs

unfoldable pub insert_key : ℕ → List ℕ → List ℕ
insert_key a xs = if member a xs then xs else a ∷ xs

unfoldable pub erase_key : ℕ → List ℕ → List ℕ
erase_key a [] = []
erase_key a (x ∷ xs) = if x == a then erase_key a xs else x ∷ erase_key a xs

-- The keys do not fall, and no two nodes are the same.
abbrev pub Above : ℤ → List Entry → Type 0
Above t [] = Unit {0}
Above t (x ∷ xs) = (t ≤ℤ x.timeout) × Above t xs

abbrev pub Sorted : List Entry → Type 0
Sorted [] = Unit {0}
Sorted (x ∷ xs) = Above x.timeout xs × Sorted xs

abbrev pub Distinct : List Entry → Type 0
Distinct [] = Unit {0}
Distinct (x ∷ xs) = (find x.node xs ≡ none) × Distinct xs

abbrev pub Below : ℕ → List Entry → Type 0
Below k [] = Unit {0}
Below k (x ∷ xs) = (x.node < k) × Below k xs

pub Above-trans : (s t : ℤ) (xs : List Entry) → s ≤ℤ t → Above t xs → Above s xs
Above-trans s t [] h a = tt
Above-trans s t (x ∷ xs) h a = (omega arith, Above-trans s t xs h a.1)

pub Above-insert :
    (t : ℤ) (e : Entry) (xs : List Entry) → t ≤ℤ e.timeout → Above t xs → Above t (insert e xs)
unfolding insert
Above-insert t e [] h a = (h, tt)
Above-insert t e (x ∷ xs) h a = ground (arith, Above-insert t e xs)

pub Sorted-insert : (e : Entry) (xs : List Entry) → Sorted xs → Sorted (insert e xs)
unfolding insert
Sorted-insert e [] s = (tt, tt)
Sorted-insert e (x ∷ xs) s = elim (Bool-cases (leb_ℤ x.timeout e.timeout)) [
  | inl le ↦ rw le (Above-insert x.timeout e xs (ground arith) s.0, Sorted-insert e xs s.1)
  | inr gt ↦ rw gt ((ground arith, Above-trans e.timeout x.timeout xs (ground arith) s.0), s)
]

pub Above-erase : (t : ℤ) (n : ℕ) (xs : List Entry) → Above t xs → Above t (erase n xs)
unfolding erase
Above-erase t n [] a = tt
Above-erase t n (x ∷ xs) a = ground (arith, Above-erase t n xs)

pub Sorted-erase : (n : ℕ) (xs : List Entry) → Sorted xs → Sorted (erase n xs)
unfolding erase
Sorted-erase n [] s = tt
Sorted-erase n (x ∷ xs) s = ground (arith, Sorted-erase n xs, Above-erase x.timeout n xs)

pub find_above : (k n : ℕ) (xs : List Entry) → Below k xs → k ≤ n → find n xs ≡ none
unfolding find
find_above k n [] b h = refl
find_above k n (x ∷ xs) b h = ground (arith, find_above k n xs)

pub Below-mono : (k : ℕ) (xs : List Entry) → Below k xs → Below (k + 1) xs
Below-mono k [] b = tt
Below-mono k (x ∷ xs) b = (omega arith, Below-mono k xs b.1)

pub Below-insert :
    (k : ℕ) (e : Entry) (xs : List Entry) → e.node < k → Below k xs → Below k (insert e xs)
unfolding insert
Below-insert k e [] h b = (h, tt)
Below-insert k e (x ∷ xs) h b = ground (arith, Below-insert k e xs)

pub Below-erase : (k n : ℕ) (xs : List Entry) → Below k xs → Below k (erase n xs)
unfolding erase
Below-erase k n [] b = tt
Below-erase k n (x ∷ xs) b = ground (arith, Below-erase k n xs)

pub find-insert :
    (n : ℕ) (e : Entry) (xs : List Entry)
    → find e.node xs ≡ none
    → find n (insert e xs) ≡ (if e.node == n then some e else find n xs)
unfolding insert find
find-insert n e [] h = refl
find-insert n e (x ∷ xs) h = ground (arith, find-insert n e xs)

pub find-erase :
    (m n : ℕ) (xs : List Entry)
    → Distinct xs
    → find m (erase n xs) ≡ (if m == n then none else find m xs)
unfolding erase find
find-erase m n [] d = ground arith
find-erase m n (x ∷ xs) d = ground (arith, find-erase m n xs)

pub Distinct-insert :
    (e : Entry) (xs : List Entry) → find e.node xs ≡ none → Distinct xs → Distinct (insert e xs)
unfolding insert find
Distinct-insert e [] h d = (refl, tt)
Distinct-insert e (x ∷ xs) h d = ground (arith, Distinct-insert e xs, find-insert x.node e xs)

pub Distinct-erase : (n : ℕ) (xs : List Entry) → Distinct xs → Distinct (erase n xs)
unfolding erase
Distinct-erase n [] d = tt
Distinct-erase n (x ∷ xs) d = ground (arith, Distinct-erase n xs, find-erase x.node n xs)

pub find_node : (n : ℕ) (xs : List Entry) (e : Entry) → find n xs ≡ some e → e.node ≡ n
unfolding find
find_node n [] e h = cc
find_node n (x ∷ xs) e h = ground (arith, find_node n xs e)

pub member-insert_key :
    (a b : ℕ) (xs : List ℕ) → member a (insert_key b xs) ≡ (b == a || member a xs)
unfolding insert_key member
member-insert_key a b xs = ground arith

pub member-erase_key :
    (a b : ℕ) (xs : List ℕ) → member a (erase_key b xs) ≡ (if b == a then false else member a xs)
unfolding erase_key member
member-erase_key a b [] = ground arith
member-erase_key a b (x ∷ xs) = ground (arith, member-erase_key a b xs)

-- The alarm that a node holds.
abbrev cb_of : Option Entry → Option ℕ
cb_of none = none
cb_of (some e) = some e.cb

unfoldable pub cb_at : ℕ → List Entry → Option ℕ
cb_at n xs = cb_of (find n xs)

pub cb_at-none : (n : ℕ) (xs : List Entry) → find n xs ≡ none → cb_at n xs ≡ none
unfolding cb_at
cb_at-none n xs h = rw h

pub cb_at-some : (n : ℕ) (xs : List Entry) (e : Entry) → find n xs ≡ some e → cb_at n xs ≡ some e.cb
unfolding cb_at
cb_at-some n xs e h = rw h

pub cb_at-insert :
    (n : ℕ) (e : Entry) (xs : List Entry)
    → find e.node xs ≡ none
    → cb_at n (insert e xs) ≡ (if e.node == n then some e.cb else cb_at n xs)
unfolding cb_at
cb_at-insert n e xs h = rw (find-insert n e xs h) (ground arith)

pub cb_at-erase :
    (m n : ℕ) (xs : List Entry)
    → Distinct xs
    → cb_at m (erase n xs) ≡ (if m == n then none else cb_at m xs)
unfolding cb_at
cb_at-erase m n xs d = rw (find-erase m n xs d) (ground arith)

pub cb_at-find :
    (n a : ℕ) (xs : List Entry)
    → cb_at n xs ≡ some a
    → (e : Entry) × (find n xs ≡ some e) × (e.cb ≡ a) × (e.node ≡ n)
unfolding cb_at
cb_at-find n a xs h = elim (Option-cases (find n xs)) [
  | inl e ↦ absurd (none-ne-some (rw e at h))
  | inr (x, e) ↦ (x, e, some-eq x (rw e at h), find_node n xs x e)
]
  where
    none-ne-some : cb_of none ≡ some a → ⊥
    none-ne-some p = cc

    some-eq : (x : Entry) → cb_of (some x) ≡ some a → x.cb ≡ a
    some-eq x p = cc

pub find-lt : (k n : ℕ) (xs : List Entry) (e : Entry) → Below k xs → find n xs ≡ some e → e.node < k
unfolding find
find-lt k n [] e b h = absurd (cc)
find-lt k n (x ∷ xs) e b h = ground (arith, find-lt k n xs e)
