-- ===== src/Report/Redacted/Laws.antt =====
-- internal/report/redacted.go: every redaction entry is reported.
use kbdiag.Prelude.{
  ℤ, leb_ℤ, String, Bool, true, List, [], ◌∷◌, ◌++◌, ◌&&◌, ◌||◌, not, any, all, str_eq, eq_iff, ◌≡◌,
  refl, ap, inl, inr, Bool-cases, arith, if◌then◌else◌,
}
use kbdiag.Facts.Base.{Redaction}
use kbdiag.Rule.Names.{listed}
use kbdiag.Report.Redacted.{
  FieldLabel, redacted_labels, delete, delete_all, table_labels, own_labels, labels, Group, max_ℤ,
  is_key, add_entry, groups_from, groups,
}

-- The group reports the entry: of its probe and reason, at least its rows, and its field.
abbrev pub covers : Redaction → Group → Bool
covers x g =
    str_eq g.probe x.probe_id
    && str_eq g.reason x.reason
    && leb_ℤ x.rows_affected g.rows
    && listed x.field g.fields

str_eq_refl : (s : String) → str_eq s s ≡ true
str_eq_refl s = (eq_iff s s).1 refl

listed-append :
    (f : String) (gs hs : List String) → listed f (gs ++ hs) ≡ (listed f gs || listed f hs)
listed-append f [] hs = refl
listed-append f (g ∷ gs) hs = ground (arith, listed-append f gs hs)

add_entry-covers : (x : Redaction) (gs : List Group) → any (covers x) (add_entry gs x) ≡ true
add_entry-covers x [] =
    ground (arith, str_eq_refl x.probe_id, str_eq_refl x.reason, str_eq_refl x.field)
add_entry-covers x (g ∷ gs) = ground (
  arith,
  add_entry-covers x gs,
  listed-append x.field g.fields (x.field ∷ []),
  str_eq_refl x.field,
)

max_ℤ-keeps : (a b c : ℤ) → leb_ℤ a b ≡ true → leb_ℤ a (max_ℤ b c) ≡ true
max_ℤ-keeps a b c h = ground (arith, h)

-- The group after one more entry of its key.
abbrev extended : Group → Redaction → Group
extended g x = record g { rows = max_ℤ g.rows x.rows_affected; fields = g.fields ++ (x.field ∷ []) }

and_mono :
    (k r l r' l' : Bool)
    → (r ≡ true → r' ≡ true)
    → (l ≡ true → l' ≡ true)
    → (k && r && l) ≡ true
    → (k && r' && l') ≡ true
and_mono k r l r' l' f g h = ground (arith, h, f, g)

extended-covers : (x y : Redaction) (g : Group) → covers y g ≡ true → covers y (extended g x) ≡ true
extended-covers x y g =
    and_mono (str_eq g.probe y.probe_id && str_eq g.reason y.reason) _ _ _ _
      (max_ℤ-keeps y.rows_affected g.rows x.rows_affected)
      (λ h. ground (arith, h, listed-append y.field g.fields (x.field ∷ [])))

or_mono :
    (a b a' b' : Bool)
    → (a ≡ true → a' ≡ true)
    → (b ≡ true → b' ≡ true)
    → (a || b) ≡ true
    → (a' || b') ≡ true
or_mono a b a' b' f g h = ground (arith, h, f, g)

add_entry-keeps :
    (x y : Redaction) (gs : List Group)
    → any (covers y) gs ≡ true
    → any (covers y) (add_entry gs x) ≡ true
add_entry-keeps x y [] h = absurd (ground (arith, h))
add_entry-keeps x y (g ∷ gs) h = elim (Bool-cases (is_key x g)) [
  | inl e ↦ rw e (or_mono _ _ _ _ (extended-covers x y g) (λ k. k) h)
  | inr e ↦ rw e (or_mono _ _ _ _ (λ k. k) (add_entry-keeps x y gs) h)
]

groups_from-keeps :
    (gs : List Group) (rs : List Redaction) (y : Redaction)
    → any (covers y) gs ≡ true
    → any (covers y) (groups_from gs rs) ≡ true
unfolding groups_from
groups_from-keeps gs [] y h = h
groups_from-keeps gs (x ∷ xs) y h =
    groups_from-keeps (add_entry gs x) xs y (add_entry-keeps x y gs h)

groups_from-covers :
    (gs : List Group) (rs : List Redaction)
    → all (λ x. any (covers x) (groups_from gs rs)) rs ≡ true
unfolding groups_from
groups_from-covers gs [] = refl
groups_from-covers gs (x ∷ xs) = ground (
  arith,
  groups_from-keeps (add_entry gs x) xs x (add_entry-covers x gs),
  groups_from-covers (add_entry gs x) xs,
)

-- The label that stands for a field: that of the first line of the table with it, or its own name.
abbrev pub label_of : List FieldLabel → String → String
label_of [] f = f
label_of (l ∷ ls) f = if listed f l.fields then l.label else label_of ls f

listed-delete :
    (f g : String) (has : List String)
    → listed f (delete g has) ≡ (listed f has && not (str_eq g f))
listed-delete f g [] = refl
listed-delete f g (h ∷ hs) =
    ground (arith, listed-delete f g hs, eq_iff h g, eq_iff h f, eq_iff g f)

listed-delete_all :
    (f : String) (fs has : List String)
    → listed f (delete_all fs has) ≡ (listed f has && not (listed f fs))
listed-delete_all f [] has = ground arith
listed-delete_all f (g ∷ fs) has =
    ground (arith, listed-delete_all f fs (delete g has), listed-delete f g has)

any-listed :
    (f : String) (fs has : List String)
    → listed f fs ≡ true
    → listed f has ≡ true
    → any (λ x. listed x has) fs ≡ true
any-listed f [] has h k = h
any-listed f (g ∷ fs) has h k = elim (Bool-cases (str_eq g f)) [
  | inl e ↦ rw ((eq_iff g f).0 e) (ground (arith, k))
  | inr e ↦ ground (arith, h, e, any-listed f fs has)
]

-- A field of the set is in what the table gave, under its label, or is left as it is.
table_labels-labelled :
    (t : List FieldLabel) (has : List String) (f : String)
    → listed f has ≡ true
    → (listed (label_of t f) (table_labels t has).0
        || (str_eq (label_of t f) f && listed f (table_labels t has).1))
      ≡ true
unfolding table_labels
table_labels-labelled [] has f h = ground (arith, h, str_eq_refl f)
table_labels-labelled (l ∷ ls) has f h = ground (
  arith,
  h,
  table_labels-labelled ls (delete_all l.fields has) f,
  listed-delete_all f l.fields has,
  any-listed f l.fields has,
  str_eq_refl l.label,
)

own_labels-listed :
    (fs has : List String) (f : String)
    → listed f fs ≡ true
    → listed f has ≡ true
    → listed f (own_labels fs has) ≡ true
unfolding own_labels
own_labels-listed [] has f h k = h
own_labels-listed (g ∷ fs) has f h k = elim (Bool-cases (str_eq g f)) [
  | inl e ↦ rw ((eq_iff g f).0 e) (rw k (ground (arith, str_eq_refl f)))
  | inr e ↦
      let rest =
        own_labels-listed fs (delete g has) f (ground (arith, h, e))
          (ground (arith, k, e, listed-delete f g has)) in
      ground (arith, rest, e)
]

labels-listed :
    (t : List FieldLabel) (f : String) (fields : List String)
    → listed f fields ≡ true
    → listed
        (label_of t f)
        ((table_labels t fields).0 ++ own_labels fields (table_labels t fields).1)
      ≡ true
labels-listed t f fields h = elim (Bool-cases (listed label out)) [
  | inl e ↦ ground (arith, e, listed-append label out own)
  | inr e ↦
      let same : label ≡ f = (eq_iff label f).0 (ground (arith, e, known)) in
      let left : listed f own ≡ true =
        own_labels-listed fields (table_labels t fields).1 f h (ground (arith, e, known)) in
      ground (arith, listed-append label out own, left, ap (λ x. listed x own) same)
]
  where
    label : String
    label = label_of t f

    out : List String
    out = (table_labels t fields).0

    own : List String
    own = own_labels fields (table_labels t fields).1

    known : (listed label out || (str_eq label f && listed f (table_labels t fields).1)) ≡ true
    known = table_labels-labelled t fields f h

-- The label of every field that a line is about is among the words that the line prints.
pub labels-cover :
    (probe f : String) (fields : List String)
    → listed f fields ≡ true
    → listed (label_of (redacted_labels probe) f) (labels probe fields) ≡ true
unfolding labels
labels-cover probe f fields h = labels-listed (redacted_labels probe) f fields h

-- Every redaction entry is in one of the groups of writeRedacted: a group of its probe and reason,
-- with at least its number of rows, and with its field among the fields.
pub groups-cover : (rs : List Redaction) → all (λ x. any (covers x) (groups rs)) rs ≡ true
unfolding groups
groups-cover rs = groups_from-covers [] rs
