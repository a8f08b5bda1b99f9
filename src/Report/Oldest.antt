-- ===== src/Report/Oldest.antt =====
-- internal/report/txn.go: the oldest transaction id, and everything that holds it. A uint32 is a
-- natural number below 2^32.
pub mod Window
use kbdiag.Prelude.{
  ℕ, ◌+◌, ◌-◌, ◌%◌, leb, ltb_ℤ, ◌==◌, String, Bool, Option, none, some, List, [], ◌∷◌, ◌++◌, map,
  ◌||◌, true, false, select, concat, join, show, show_ℕ, if◌then◌else◌,
}
use kbdiag.Facts.Base.{Status}
use kbdiag.Facts.Session.{Session, SessionActivity, session_activity_id}
use kbdiag.Facts.Txn.{Prepared, TxnPrepared, txn_prepared_id}
use kbdiag.Report.Render.{escape_control}
use kbdiag.Report.Layout.{Terminal, fit_width, max_name}
use kbdiag.Scenario.Sorting.{stable_sort}

-- int32(a - b) < 0: the difference of 32 bits has its sign bit set.
unfoldable pub older_xid : ℕ → ℕ → Bool
older_xid a b = leb 2147483648 ((a + (4294967296 - b)) % 4294967296)

pub record Holder : Type 0 where
  pub xid : ℕ
  pub label : String

abbrev pub held : Option ℕ → String → List Holder
held none label = []
held (some x) label = record { xid = x; label = label } ∷ []

-- The loop that finds the oldest.
unfoldable pub oldest_from : ℕ → List Holder → ℕ
unfolding older_xid
oldest_from o [] = o
oldest_from o (h ∷ hs) = oldest_from (if older_xid h.xid o then h.xid else o) hs

-- The labels of the holders of this id.
unfoldable pub labels_of : ℕ → List Holder → List String
labels_of o hs = map (λ h. h.label) (select (λ h. h.xid == o) hs)

abbrev pub is_ok : Status → Bool
is_ok Status.ok = true
is_ok _ = false

abbrev pub is_inapplicable : Status → Bool
is_inapplicable Status.not_applicable = true
is_inapplicable _ = false

-- missing: the probes whose rows may hide an older id
unfoldable pub missing_probes : Status → Status → List String
missing_probes activity prepared =
    (if is_ok activity then [] else session_activity_id ∷ [])
    ++ (if is_ok prepared || is_inapplicable prepared then [] else txn_prepared_id ∷ [])

unfoldable pub caveat : List String → String
caveat [] = ""
caveat ps = concat ("; " ∷ join ", " ps ∷ " not collected, an older one may exist" ∷ [])

-- What is printed after hs is built: nothing, or an empty line and the line.
unfoldable pub oldest_line : List String → List Holder → List String
unfolding oldest_from labels_of caveat
oldest_line [] [] = []
oldest_line (p ∷ ps) [] =
    "" ∷ concat ("oldest xid: unknown  (" ∷ join ", " (p ∷ ps) ∷ " not collected)" ∷ []) ∷ []
oldest_line ps (h ∷ hs) =
    let o = oldest_from h.xid hs in
    ""
    ∷ concat (
        "oldest xid: " ∷ show_ℕ o ∷ "  (" ∷ join ", " (labels_of o (h ∷ hs)) ∷ caveat ps ∷ ")" ∷ [])
    ∷ []

unfoldable pub session_holders : {F : Type 0} → List (Session F) → List Holder
session_holders [] = []
session_holders (s ∷ ss) =
    held s.backend_xid (concat (show s.pid ∷ " xid" ∷ []))
    ++ held s.backend_xmin (concat (show s.pid ∷ " xmin" ∷ []))
    ++ session_holders ss

module _ ⦃t : Terminal⦄ {F T : Type 0} where
  unfoldable pub prepared_holders : List (Prepared F T) → List Holder
  prepared_holders [] = []
  prepared_holders (p ∷ ps) =
      record {
        xid = p.transaction;
        label = concat ("2PC " ∷ fit_width (escape_control p.gid) max_name ∷ []);
      }
      ∷ prepared_holders ps

  -- hs of writeOldest
  unfoldable pub holders : SessionActivity F → TxnPrepared F T → List Holder
  unfolding prepared_holders session_holders stable_sort
  holders a p =
      (if is_ok p.status then prepared_holders p.rows else [])
      ++ (if is_ok a.status
          then session_holders (stable_sort (λ x y. ltb_ℤ x.pid y.pid) a.rows)
          else [])

  -- writeOldest: its lines
  unfoldable pub write_oldest : SessionActivity F → TxnPrepared F T → List String
  unfolding oldest_line missing_probes holders
  write_oldest a p = oldest_line (missing_probes a.status p.status) (holders a p)
