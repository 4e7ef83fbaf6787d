-- ===== src/Etl/Facts/Groups.antt =====
-- app/database/etl.py, `_build_movement_facts`: the grouped sums, the deletion and the insertion, read
-- as amounts at a key.
use inventory_logix_dashboar.Base.{
  ℕ, ◌+◌, ◌≡◌, refl, true, false, ◌||◌, List, [], ◌∷◌, ◌++◌, arith, if◌then◌else◌, any_of,
}
use inventory_logix_dashboar.Etl.Facts.{
  Key, Fact, same_key, merge, add_line, group, has_key, insert_facts,
}

-- The summed columns of a fact
pub data Column : Type 0 where
  in_qty out_qty in_value out_value : Column

abbrev pub column : Column → Fact → ℕ
column in_qty f = f.in_qty
column out_qty f = f.out_qty
column in_value f = f.in_value
column out_value f = f.out_value

-- The sum of a column over the rows with the key.
unfoldable pub amount : Column → Key → List Fact → ℕ
unfolding same_key
amount c k [] = 0
amount c k (f ∷ facts) = (if same_key f.key k then column c f else 0) + amount c k facts

same_key_trans : (a b k : Key) → same_key a b ≡ true → same_key a k ≡ same_key b k
unfolding same_key
same_key_trans a b k h = ground arith

same_key_sym : (a b : Key) → same_key a b ≡ same_key b a
unfolding same_key
same_key_sym a b = ground arith

column-merge : (c : Column) (l f : Fact) → column c (merge l f) ≡ column c l + column c f
unfolding merge
column-merge in_qty l f = refl
column-merge out_qty l f = refl
column-merge in_value l f = refl
column-merge out_value l f = refl

key-merge : (l f : Fact) → (merge l f).key ≡ f.key
unfolding merge
key-merge l f = refl

amount-add_line :
    (c : Column) (k : Key) (l : Fact) (facts : List Fact)
    → amount c k (add_line l facts) ≡ amount c k (l ∷ facts)
unfolding amount add_line
amount-add_line c k l [] = refl
amount-add_line c k l (f ∷ facts) = ground (
  arith,
  column-merge c l f,
  key-merge l f,
  same_key_trans l.key f.key k,
  amount-add_line c k l facts,
)

pub amount-group :
    (c : Column) (k : Key) (lines : List Fact) → amount c k (group lines) ≡ amount c k lines
unfolding group amount
amount-group c k [] = refl
amount-group c k (l ∷ lines) =
    omega (arith, amount-add_line c k l (group lines), amount-group c k lines)

pub amount-append :
    (c : Column) (k : Key) (xs ys : List Fact)
    → amount c k (xs ++ ys) ≡ amount c k xs + amount c k ys
unfolding amount
amount-append c k [] ys = omega arith
amount-append c k (x ∷ xs) ys = omega (arith, amount-append c k xs ys)

has_key-append :
    (k : Key) (xs : List Fact) (f : Fact)
    → has_key k (xs ++ f ∷ []) ≡ (has_key k xs || same_key k f.key)
unfolding has_key any_of
has_key-append k [] f = ground arith
has_key-append k (x ∷ xs) f = ground (arith, has_key-append k xs f)

has_key-add_line :
    (k : Key) (l : Fact) (facts : List Fact)
    → has_key k (add_line l facts) ≡ (same_key k l.key || has_key k facts)
unfolding has_key any_of add_line
has_key-add_line k l [] = refl
has_key-add_line k l (f ∷ facts) = ground (
  arith,
  key-merge l f,
  same_key_trans l.key f.key k,
  same_key_sym l.key k,
  same_key_sym f.key k,
  has_key-add_line k l facts,
)

-- No two rows share a key.
abbrev pub HasUniqueKeys : List Fact → Type 0
HasUniqueKeys [] = Unit
HasUniqueKeys (f ∷ facts) = (has_key f.key facts ≡ false) × HasUniqueKeys facts

has_key_nil : (k : Key) → has_key k [] ≡ false
unfolding has_key any_of
has_key_nil k = refl

add_line-HasUniqueKeys :
    (l : Fact) (facts : List Fact) → HasUniqueKeys facts → HasUniqueKeys (add_line l facts)
unfolding add_line
add_line-HasUniqueKeys l [] h = (has_key_nil l.key, tt)
add_line-HasUniqueKeys l (f ∷ facts) h = ground (
  arith,
  key-merge l f,
  has_key-add_line f.key l facts,
  same_key_sym l.key f.key,
  add_line-HasUniqueKeys l facts h.1,
)

pub group-HasUniqueKeys : (lines : List Fact) → HasUniqueKeys (group lines)
unfolding group
group-HasUniqueKeys [] = tt
group-HasUniqueKeys (l ∷ lines) = add_line-HasUniqueKeys l (group lines) (group-HasUniqueKeys lines)

-- Rows with keys of their own, none of which is in the table
abbrev pub AreFresh : List Fact → List Fact → Type 0
AreFresh [] table = Unit
AreFresh (f ∷ facts) table = (has_key f.key table ≡ false) × AreFresh facts table

AreFresh-append :
    (facts table : List Fact) (f : Fact)
    → AreFresh facts table
    → has_key f.key facts ≡ false
    → AreFresh facts (table ++ f ∷ [])
unfolding has_key any_of
AreFresh-append [] table f h n = tt
AreFresh-append (g ∷ facts) table f h n = ground (
  arith,
  has_key-append g.key table f,
  same_key_sym f.key g.key,
  AreFresh-append facts table f h.1,
)

-- An insertion without conflicts adds the rows' amounts.
pub amount-insert_facts :
    (c : Column) (k : Key) (facts table : List Fact)
    → HasUniqueKeys facts
    → AreFresh facts table
    → amount c k (insert_facts facts table) ≡ amount c k table + amount c k facts
unfolding insert_facts amount
amount-insert_facts c k [] table u h = omega arith
amount-insert_facts c k (f ∷ facts) table u h = rw h.0 (
    omega (
      arith,
      amount-insert_facts c k facts (table ++ f ∷ []) u.1 (AreFresh-append facts table f h.1 u.0),
      amount-append c k table (f ∷ []),
    ))
