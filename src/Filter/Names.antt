-- ===== src/Filter/Names.antt =====
-- FiltersDB: lookup after insertion and removal.
use d4x.Prelude.{
  ◌≡◌, refl, ◌∙◌, inl, inr, Bool, false, [], ◌∷◌, if◌then◌else◌, arith, Bool-cases, Bytes,
  same_text, same_text→eq,
}
use d4x.Filter.{Filter, FiltersDb, insert, remove, find, unnamed}

same_text_swap : (s t : Bytes) → same_text s t ≡ same_text t s
same_text_swap [] [] = refl
same_text_swap [] (d ∷ t) = refl
same_text_swap (c ∷ s) [] = refl
same_text_swap (c ∷ s) (d ∷ t) = ground (arith, same_text_swap s t)

-- No name stands twice.
abbrev pub Absent : Bytes → FiltersDb → Type 0
Absent k [] = Unit
Absent k ((j, g) ∷ db) = (same_text j k ≡ false) × Absent k db

abbrev pub IsMap : FiltersDb → Type 0
IsMap [] = Unit
IsMap ((k, g) ∷ db) = Absent k db × IsMap db

Absent-insert :
    (k : Bytes) (db : FiltersDb) (f : Filter)
    → same_text f.name k ≡ false
    → Absent k db
    → Absent k (insert db f)
unfolding insert
Absent-insert k [] f h a = (h, tt)
Absent-insert k ((j, g) ∷ db) f h (p, a) = elim (Bool-cases (same_text j f.name)) [
  | inl e ↦ rw e (p, a)
  | inr e ↦ rw e (p, Absent-insert k db f h a)
]

insert-IsMap : (db : FiltersDb) (f : Filter) → IsMap db → IsMap (insert db f)
unfolding insert
insert-IsMap [] f m = (tt, tt)
insert-IsMap ((k, g) ∷ db) f (a, m) = elim (Bool-cases (same_text k f.name)) [
  | inl e ↦ rw e (a, m)
  | inr e ↦ rw e (Absent-insert k db f (same_text_swap f.name k ∙ e) a, insert-IsMap db f m)
]

Absent-remove : (k name : Bytes) (db : FiltersDb) → Absent k db → Absent k (remove db name)
unfolding remove
Absent-remove k name [] a = tt
Absent-remove k name ((j, g) ∷ db) (p, a) = elim (Bool-cases (same_text j name)) [
  | inl e ↦ rw e a
  | inr e ↦ rw e (p, Absent-remove k name db a)
]

remove-IsMap : (db : FiltersDb) (name : Bytes) → IsMap db → IsMap (remove db name)
unfolding remove
remove-IsMap [] name m = tt
remove-IsMap ((k, g) ∷ db) name (a, m) = elim (Bool-cases (same_text k name)) [
  | inl e ↦ rw e m
  | inr e ↦ rw e (Absent-remove k name db a, remove-IsMap db name m)
]

find-insert :
    (garbage : Bool) (db : FiltersDb) (f : Filter) (name : Bytes)
    → find garbage (insert db f) name ≡ (if same_text f.name name then f else find garbage db name)
unfolding find insert
find-insert garbage [] f name = refl
find-insert garbage ((k, g) ∷ db) f name = elim (Bool-cases (same_text k f.name)) [
  | inl e ↦ rw (e, same_text→eq k f.name e) (ground arith)
  | inr e ↦
      rw (e, find-insert garbage db f name)
        (elim (Bool-cases (same_text k name)) [
          | inl h ↦ rw (h, ← same_text→eq k name h, same_text_swap f.name k, e)
          | inr h ↦ rw h
        ])
]

find-Absent :
    (garbage : Bool) (db : FiltersDb) (name : Bytes)
    → Absent name db
    → find garbage db name ≡ unnamed garbage
unfolding find
find-Absent garbage [] name a = refl
find-Absent garbage ((k, g) ∷ db) name (p, a) = rw p (find-Absent garbage db name a)

find-remove :
    (garbage : Bool) (db : FiltersDb) (name other : Bytes)
    → IsMap db
    → find garbage (remove db name) other
      ≡ (if same_text name other then unnamed garbage else find garbage db other)
unfolding find remove
find-remove garbage [] name other m = ground arith
find-remove garbage ((k, g) ∷ db) name other (a, m) = elim (Bool-cases (same_text k name)) [
  | inl e ↦
      rw (e, ← same_text→eq k name e)
        (elim (Bool-cases (same_text k other)) [
          | inl h ↦ rw h (find-Absent garbage db other (rw (same_text→eq k other h) at a))
          | inr h ↦ rw h
        ])
  | inr e ↦
      rw (e, find-remove garbage db name other m)
        (elim (Bool-cases (same_text k other)) [
          | inl h ↦ rw (h, ← same_text→eq k other h, same_text_swap name k, e)
          | inr h ↦ rw h
        ])
]

-- In a map in which no name stands twice, inserting a filter and removing a name keep it so;
-- afterwards the inserted filter is found under its name, under a removed name the unnamed filter, and every other name
-- gives what it gave before.
pub names_lem :
    (garbage : Bool) (db : FiltersDb) (f : Filter) (name other : Bytes)
    → IsMap db
    → IsMap (insert db f)
      × (find garbage (insert db f) other
          ≡ (if same_text f.name other then f else find garbage db other))
      × IsMap (remove db name)
      × (find garbage (remove db name) other
          ≡ (if same_text name other then unnamed garbage else find garbage db other))
names_lem garbage db f name other m = (
  insert-IsMap db f m,
  find-insert garbage db f other,
  remove-IsMap db name m,
  find-remove garbage db name other m,
)
