-- ===== src/Scenario/Ordered/Laws.antt =====
-- internal/scenario/top.go and seq.go: what the sorting and the cut of their rows promise.
use kbdiag.Prelude.{
  ℕ, zero, suc, ltb, length, ℤ, ltb_ℤ, Bool, true, false, String, Option, none, some, List, ◌&&◌,
  not, take, drop, ◌≡◌, arith, pos, pos_part, [], ◌∷◌, map, refl, sym, ap, ◌∙◌, if◌then◌else◌,
}
use mathlib.Core.List.{Mem, Perm}
use kbdiag.Facts.Base.{Floats, Times, Status, Value}
use kbdiag.Facts.Base as Facts
use kbdiag.Rule.Seq as RuleSeq
use kbdiag.Rule.Seq.Laws.{seq-verdict, is_exhausted}
use kbdiag.Report.{probe_of, Probe, get_probe, add_probe, add_redacted, new}
use kbdiag.Facts.Top.{Statement, SqlTop, sql_top_id, top_columns}
use kbdiag.Facts.Top as FactsTop
use kbdiag.Report.Laws.{get_probe-add_probe}
use kbdiag.Facts.Seq.{Sequence, SeqList}
use kbdiag.Scenario.Sorting.{text_lt}
use kbdiag.Scenario.Sorting.Orders.{
  IsOrder, always, lexicographic, lexicographic-IsOrder, text_lt-IsOrder,
}
use kbdiag.Scenario.Sorting.Laws.{stable_sort-perm, stable_sort-cut, any-stable_sort}
use kbdiag.Scenario.Ordered.{
  top, seq, top_key, top_less, top_rows, or_empty, seq_less, seq_rows, seq_name, used_share,
}

-- The floats that pass the test are ordered, as those that are no NaN are.
pub record IsOrdered {F : Type 0} (fl : Floats F) (is_number : F → Bool) : Type 0 where
  pub lt_order : IsOrder is_number fl.lt
  pub le_lem : (a b : F) → is_number a ≡ true → is_number b ≡ true → fl.le a b ≡ not (fl.lt b a)

IsOrder-cong {ℓ} :
    {A : Type ℓ} (p : A → Bool) (less more : A → A → Bool)
    → ((a b : A) → p a ≡ true → p b ≡ true → less a b ≡ more a b)
    → IsOrder p more
    → IsOrder p less
IsOrder-cong p less more e o = record {
  asym = λ a b x y h. ground (arith, h, e a b x y, e b a y x, o.asym a b x y);
  not_trans = λ a b c x y z h k.
      ground (arith, h, k, e a b x y, e b c y z, e a c x z, o.not_trans a b c x y z);
}

-- The greater key first.
abbrev by_most {ℓ κ} : {A : Type ℓ} {K : Type κ} → (K → K → Bool) → (A → K) → A → A → Bool
by_most lt key a b = lt (key b) (key a)

by_most-IsOrder {ℓ κ} :
    {A : Type ℓ} {K : Type κ} (p : A → Bool) (q : K → Bool) (lt : K → K → Bool) (key : A → K)
    → ((a : A) → p a ≡ true → q (key a) ≡ true)
    → IsOrder q lt
    → IsOrder p (by_most lt key)
by_most-IsOrder p q lt key k o = record {
  asym = λ a b x y h. o.asym (key b) (key a) (k b y) (k a x) h;
  not_trans = λ a b c x y z h l. o.not_trans (key c) (key b) (key a) (k c z) (k b y) (k a x) l h;
}

-- The lesser key first.
abbrev by_least {ℓ κ} : {A : Type ℓ} {K : Type κ} → (K → K → Bool) → (A → K) → A → A → Bool
by_least lt key a b = lt (key a) (key b)

by_least-IsOrder {ℓ κ} :
    {A : Type ℓ} {K : Type κ} (p : A → Bool) (lt : K → K → Bool) (key : A → K)
    → IsOrder always lt
    → IsOrder p (by_least lt key)
by_least-IsOrder p lt key o = record {
  asym = λ a b x y h. o.asym (key a) (key b) refl refl h;
  not_trans = λ a b c x y z h l. o.not_trans (key a) (key b) (key c) refl refl refl h l;
}

ltb_ℤ-IsOrder : IsOrder always ltb_ℤ
ltb_ℤ-IsOrder = record {
  asym = λ a b x y h. ground (arith, h);
  not_trans = λ a b c x y z h k. ground (arith, h, k);
}

-- Query ids: a missing one last.
abbrev id_lt : Option ℤ → Option ℤ → Bool
id_lt none b = false
id_lt (some a) none = true
id_lt (some a) (some b) = ltb_ℤ a b

id_lt-IsOrder : IsOrder always id_lt
id_lt-IsOrder = record {
  asym = λ a b x y h. ground (arith, h);
  not_trans = λ a b c x y z h k. ground (arith, h, k);
}

abbrev pub text_of : Option String → String
text_of none = ""
text_of (some s) = s

-- What top sorts by, as --by names it.
pub data Criterion : Type 0 where
  time mean calls io temp : Criterion

abbrev pub flag : Criterion → String
flag Criterion.time = "time"
flag Criterion.mean = "mean"
flag Criterion.calls = "calls"
flag Criterion.io = "io"
flag Criterion.temp = "temp"

-- The rows that a limit lets through: the first ones, or all where it is 0.
abbrev pub limited {ℓ} : {A : Type ℓ} → ℤ → List A → List A
limited limit xs = if ltb_ℤ (pos 0) limit then take (pos_part limit) xs else xs

take-map : {A B : Type 0} (f : A → B) (n : ℕ) (xs : List A) → take n (map f xs) ≡ map f (take n xs)
take-map f zero xs = refl
take-map f (suc n) [] = refl
take-map f (suc n) (x ∷ xs) = ap (◌∷◌ (f x)) (take-map f n xs)

take_whole : {A : Type 0} (n : ℕ) (xs : List A) → ltb n (length xs) ≡ false → take n xs ≡ xs
take_whole zero [] h = refl
take_whole zero (x ∷ xs) h = absurd (ground (arith, h))
take_whole (suc n) [] h = refl
take_whole (suc n) (x ∷ xs) h = ap (◌∷◌ x) (take_whole n xs (ground (arith, h)))

probe_of-limited :
    {A F : Type 0} (f : A → List (Value F)) (st : Status) (reason : String) (cols : List String)
    (limit : ℤ) (xs : List A)
    → st ≡ Status.ok
    → (probe_of st reason cols (map f xs) limit).rows ≡ map f (limited limit xs)
unfolding probe_of
probe_of-limited f st reason cols limit xs h =
    ground (arith, h, take-map f (pos_part limit) xs, take_whole (pos_part limit) (map f xs))

module _ {F : Type 0} ⦃fl : Floats F⦄ where
  -- What the criterion measures: total or mean time, calls, blocks read or temporary blocks written.
  abbrev pub measure : Criterion → Statement F → F
  measure Criterion.time s = s.total_exec_s
  measure Criterion.mean s = s.mean_exec_s
  measure Criterion.calls s = fl.of_int s.calls
  measure Criterion.io s = fl.of_int s.shared_blks_read
  measure Criterion.temp s = fl.of_int s.temp_blks_written

  measure-top_key : (cr : Criterion) (s : Statement F) → top_key (flag cr) s ≡ measure cr s
  unfolding top_key
  measure-top_key Criterion.time s = refl
  measure-top_key Criterion.mean s = refl
  measure-top_key Criterion.calls s = refl
  measure-top_key Criterion.io s = refl
  measure-top_key Criterion.temp s = refl

  -- A statement goes before another: by what is measured, then by its total time and its calls, the
  -- greatest first, then by its query id, a missing one last, and then by its text.
  abbrev pub ahead : Criterion → Statement F → Statement F → Bool
  ahead cr = lexicographic (by_most fl.lt (measure cr)) (
      lexicographic (by_most fl.lt (λ s. s.total_exec_s)) (
        lexicographic (by_most ltb_ℤ (λ s. s.calls)) (
          lexicographic (by_least id_lt (λ s. s.query_id))
            (by_least text_lt (λ s. text_of s.query)))))

  -- What top shows of its rows: in this order, cut at the limit.
  pub record IsTop (cr : Criterion) (rows : List (Statement F)) (limit : ℤ) (shown : Probe F)
      : Type 0 where
    pub whole : List (Statement F)
    pub same : Perm whole rows
    pub ordered :
        (n : ℕ) (x y : Statement F)
        → Mem x (take n whole)
        → Mem y (drop n whole)
        → ahead cr y x ≡ false
    pub first : shown.rows ≡ map FactsTop.row (limited limit whole)

  top_rows-perm : (by : String) (rows : List (Statement F)) → Perm (top_rows by rows) rows
  unfolding top_rows
  top_rows-perm by rows = stable_sort-perm (top_less by) rows

  module _ (is_number : F → Bool) (o : IsOrdered fl is_number) where
    -- The numbers by which the statement is sorted are none of them a NaN.
    abbrev pub is_measured : Criterion → Statement F → Bool
    is_measured cr s = is_number (measure cr s) && is_number s.total_exec_s

    ahead-IsOrder : (cr : Criterion) → IsOrder (is_measured cr) (ahead cr)
    ahead-IsOrder cr =
        let p = is_measured cr in
        lexicographic-IsOrder _ _ p
          (by_most-IsOrder p is_number fl.lt (measure cr) (λ a h. ground (arith, h)) o.lt_order)
          (lexicographic-IsOrder _ _ p
            (by_most-IsOrder p is_number fl.lt (λ s. s.total_exec_s) (λ a h. ground (arith, h))
              o.lt_order)
            (lexicographic-IsOrder _ _ p
              (by_most-IsOrder p always ltb_ℤ (λ s. s.calls) (λ a h. refl) ltb_ℤ-IsOrder)
              (lexicographic-IsOrder _ _ p
                (by_least-IsOrder p id_lt (λ s. s.query_id) id_lt-IsOrder)
                (by_least-IsOrder p text_lt (λ s. text_of s.query) text_lt-IsOrder))))

    top_less-ahead :
        (cr : Criterion) (a b : Statement F)
        → is_measured cr a ≡ true
        → is_measured cr b ≡ true
        → top_less (flag cr) a b ≡ ahead cr a b
    unfolding top_less or_empty
    top_less-ahead cr a b x y = ground (
      arith,
      x,
      y,
      measure-top_key cr a,
      measure-top_key cr b,
      o.le_lem (measure cr a) (measure cr b),
      o.le_lem (measure cr b) (measure cr a),
      o.le_lem a.total_exec_s b.total_exec_s,
      o.le_lem b.total_exec_s a.total_exec_s,
    )

    top_less-IsOrder : (cr : Criterion) → IsOrder (is_measured cr) (top_less (flag cr))
    top_less-IsOrder cr =
        IsOrder-cong (is_measured cr) (top_less (flag cr)) (ahead cr) (top_less-ahead cr)
          (ahead-IsOrder cr)

    top_rows-cut :
        (cr : Criterion) (rows : List (Statement F)) (n : ℕ) (x y : Statement F)
        → ((s : Statement F) → Mem s rows → is_measured cr s ≡ true)
        → Mem x (take n (top_rows (flag cr) rows))
        → Mem y (drop n (top_rows (flag cr) rows))
        → ahead cr y x ≡ false
    unfolding top_rows
    top_rows-cut cr rows n x y ok shown cut =
        let (after, px, py) =
          stable_sort-cut (top_less (flag cr)) (is_measured cr) (top_less-IsOrder cr) n rows x y ok
            shown cut in
        sym (top_less-ahead cr y x py px) ∙ after

    module _ {T : Type 0} ⦃tm : Times T⦄ where
      -- What `kbdiag top` shows, where it read the statements and none of the numbers that it sorts them
      -- by is a NaN: the statements in an order in which no later one goes before an earlier one (by
      -- what --by names, then total time, calls, query id and text), and of these the first ones up
      -- to --limit, or all of them where it is not positive.
      pub top-IsTop :
          (c : Facts.Context T) (t : SqlTop F) (limit : ℤ) (cr : Criterion)
          → t.status ≡ Status.ok
          → ((s : Statement F) → Mem s t.rows → is_measured cr s ≡ true)
          → (shown : Probe F) × (get_probe sql_top_id (top c t limit (flag cr)).probes ≡ some shown)
            × IsTop cr t.rows limit shown
      unfolding top add_redacted
      top-IsTop c t limit cr read ok =
          let shown =
            probe_of t.status t.reason top_columns (map FactsTop.row (top_rows (flag cr) t.rows))
              limit in
          (
            shown,
            (get_probe-add_probe sql_top_id sql_top_id t.status t.reason top_columns _ limit _).0,
            record {
              whole = top_rows (flag cr) t.rows;
              same = top_rows-perm (flag cr) t.rows;
              ordered = λ n x y. top_rows-cut cr t.rows n x y ok;
              first =
                  probe_of-limited FactsTop.row t.status t.reason top_columns limit
                    (top_rows (flag cr) t.rows) read;
            },
          )

bool_after : Bool → Bool → Bool
bool_after a b = a && not b

bool_after-IsOrder : IsOrder always bool_after
unfolding bool_after
bool_after-IsOrder = record {
  asym = λ a b x y h. ground (arith, h);
  not_trans = λ a b c x y z h k. ground (arith, h, k);
}

module _ {F : Type 0} ⦃fl : Floats F⦄ (is_number : F → Bool) (o : IsOrdered fl is_number) where
  -- The order of Seq as its keys: sequences with a share, by the share, then by name.
  abbrev seq_keys : Sequence → Sequence → Bool
  seq_keys =
      lexicographic (by_least bool_after (λ s. (used_share F s).1))
        (lexicographic (by_most fl.lt (λ s. (used_share F s).0)) (by_least text_lt seq_name))

  abbrev pub is_shared : Sequence → Bool
  is_shared s = is_number (used_share F s).0

  seq_less-keys :
      (a b : Sequence) → is_shared a ≡ true → is_shared b ≡ true → seq_less F a b ≡ seq_keys a b
  unfolding seq_less bool_after
  seq_less-keys a b x y = ground (
    arith,
    x,
    y,
    o.le_lem (used_share F a).0 (used_share F b).0,
    o.le_lem (used_share F b).0 (used_share F a).0,
  )

  pub seq_less-IsOrder : IsOrder is_shared (seq_less F)
  seq_less-IsOrder = IsOrder-cong is_shared (seq_less F) seq_keys seq_less-keys (
      lexicographic-IsOrder _ _ is_shared
        (by_least-IsOrder is_shared bool_after (λ s. (used_share F s).1) bool_after-IsOrder)
        (lexicographic-IsOrder _ _ is_shared
          (by_most-IsOrder is_shared is_number fl.lt (λ s. (used_share F s).0) (λ a h. h)
            o.lt_order)
          (by_least-IsOrder is_shared text_lt seq_name text_lt-IsOrder)))

module _ (F : Type 0) {T : Type 0} ⦃fl : Floats F⦄ ⦃tm : Times T⦄ where
  -- `kbdiag seq` sorts its rows before it judges and cuts them, and this does not change what it
  -- says: its verdict is that of the rule on the rows as they were read, whatever the limit.
  pub seq-verdict_unsorted :
      (c : Facts.Context T) (l : SeqList) (limit : ℤ)
      → (seq {F = F} c l limit).verdict ≡ (RuleSeq.seq {F = F} l c.role).verdict
  unfolding seq add_probe add_redacted new seq_rows
  seq-verdict_unsorted c l limit = ground (
    arith,
    seq-verdict F l c.role,
    seq-verdict F (record l { rows = seq_rows F l.rows }) c.role,
    any-stable_sort (seq_less F) (is_exhausted F) l.rows,
    any-stable_sort (seq_less F) (λ s. not s.readable) l.rows,
  )
