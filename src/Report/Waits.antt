-- ===== src/Report/Waits.antt =====
-- internal/report/waits.go: what the sessions that are doing something wait on, and how many others
-- there are. The lines are written to an io.Writer whose errors are passed on: here they are a list.
pub mod Counts
use kbdiag.Prelude.{
  ℕ, suc, ◌-◌, ◌==◌, ltb, ltb_ℤ, ℤ, pos, eqb_ℤ, ◌-ℤ◌, ◌+ℤ◌, String, Bool, true, false, Option, none,
  some, List, [], ◌∷◌, ◌++◌, ◌&&◌, ◌||◌, not, any, select, map, length, is_some, str_eq, concat,
  join, show, show_ℕ, if◌then◌else◌,
}
use kbdiag.Facts.Session.{is_text}
use kbdiag.Facts.Wait.{Wait}
use kbdiag.Report.Render.{cell_text}
use kbdiag.Report.Layout.{Terminal, write_table}
use kbdiag.Scenario.Sorting.{stable_sort, text_lt}

abbrev pub max_pids : ℕ
max_pids = 10

-- The five counts of write, and `shown`.
pub record Tally : Type 0 where
  pub busy : ℤ
  pub idle : ℤ
  pub background : ℤ
  pub hidden : ℤ
  pub untracked : ℤ
  pub shown : List Wait

abbrev pub nothing_yet : Tally
nothing_yet = record {
  busy = pos 0;
  idle = pos 0;
  background = pos 0;
  hidden = pos 0;
  untracked = pos 0;
  shown = [];
}

abbrev pub has_pid : List ℤ → ℤ → Bool
has_pid ps p = any (eqb_ℤ p) ps

-- The group without its background processes.
unfoldable pub foreground : Wait → Wait
foreground g = record g {
  sessions = g.sessions -ℤ pos (length g.background);
  pids = select (λ p. not (has_pid g.background p)) g.pids;
}

abbrev pub is_working : Wait → Bool
is_working g = not (is_some g.wait_event_type) && ltb 0 (length g.background)

-- The default case: `rest` sessions that are not masked.
unfoldable pub add_busy : Tally → Wait → ℤ → Tally
unfolding foreground
add_busy t g rest =
    let n = pos (length g.background) in
    if is_working g
    then if eqb_ℤ (rest -ℤ n) (pos 0)
      then record t { background = t.background +ℤ n }
      else record t {
        background = t.background +ℤ n;
        busy = t.busy +ℤ (rest -ℤ n);
        shown = t.shown ++ (foreground g ∷ []);
      }
    else record t { busy = t.busy +ℤ rest; shown = t.shown ++ (g ∷ []) }

-- The switch of the loop.
unfoldable pub add_rest : Tally → Wait → ℤ → Tally
unfolding add_busy
add_rest t g rest =
    if eqb_ℤ rest (pos 0)
    then t
    else if is_text g.wait_event_type "Activity"
    then record t { background = t.background +ℤ rest }
    else if is_text g.state "idle"
    then record t { idle = t.idle +ℤ rest }
    else if not (is_some g.state) && not (is_some g.wait_event_type)
    then record t { background = t.background +ℤ rest }
    else if is_text g.state "disabled"
    then record t { untracked = t.untracked +ℤ rest }
    else add_busy t g rest

unfoldable pub add_group : Tally → Wait → Tally
unfolding add_rest
add_group t g = add_rest (record t { hidden = t.hidden +ℤ g.masked }) g (g.sessions -ℤ g.masked)

unfoldable pub tally_from : Tally → List Wait → Tally
unfolding add_group
tally_from t [] = t
tally_from t (g ∷ gs) = tally_from (add_group t g) gs

abbrev pub is_active : Wait → Bool
is_active g = is_text g.state "active"

-- pidList
unfoldable pub pid_texts : ℕ → List ℤ → List String
pid_texts n [] = []
pid_texts n (p ∷ ps) =
    let rest = pid_texts (n - 1) ps in
    if n == 0 then concat ("... (+" ∷ show_ℕ (length (p ∷ ps)) ∷ ")" ∷ []) ∷ [] else show p ∷ rest

unfoldable pub pid_list : List ℤ → String
unfolding pid_texts
pid_list pids = join " " (pid_texts max_pids pids)

abbrev pub part : ℤ → String → List String
part n what = if ltb_ℤ (pos 0) n then concat (show n ∷ what ∷ []) ∷ [] else []

-- The last lines, if any.
unfoldable pub not_shown : Tally → List String
not_shown t =
    let parts =
      part t.idle " idle"
      ++ (part t.background " background"
          ++ (part t.hidden " hidden (state unknown)"
              ++ part t.untracked " untracked (state unknown)")) in
    if ltb 0 (length parts) then "" ∷ concat ("not shown: " ∷ join ", " parts ∷ []) ∷ [] else []

-- cell of a *string
abbrev pub cell_of : Option String → String
cell_of none = "-"
cell_of (some s) = cell_text s

unfoldable pub wait_label : Wait → String
wait_label g =
    if is_some g.wait_event_type
    then concat (cell_of g.wait_event_type ∷ ":" ∷ cell_of g.wait_event ∷ [])
    else if is_active g || is_text g.state "fastpath function call"
    then "(running)"
    else "-"

-- The order of the groups that are shown.
unfoldable pub waits_less : Wait → Wait → Bool
unfolding wait_label text_lt
waits_less a b =
    if not (eqb_ℤ a.sessions b.sessions)
    then ltb_ℤ b.sessions a.sessions
    else if (is_active a && not (is_active b)) || (not (is_active a) && is_active b)
    then is_active a
    else if not (str_eq (wait_label a) (wait_label b))
    then text_lt (wait_label a) (wait_label b)
    else text_lt (cell_of a.state) (cell_of b.state)

unfoldable pub group_cells : Wait → List String
unfolding wait_label pid_list
group_cells g =
    wait_label g
    ∷ (if is_some g.state then cell_of g.state else "(background)")
    ∷ show (g.sessions -ℤ g.masked)
    ∷ pid_list g.pids
    ∷ []

module _ ⦃t : Terminal⦄ where
  unfoldable pub shown_table : List Wait → List String
  unfolding group_cells waits_less stable_sort write_table
  shown_table [] = []
  shown_table (g ∷ gs) =
      write_table "  " (some ("wait" ∷ "state" ∷ "sessions" ∷ "pids" ∷ []))
        (map group_cells (stable_sort waits_less (g ∷ gs)))

  -- write, of a summary that was collected
  unfoldable pub write_waits : List Wait → List String
  unfolding tally_from shown_table not_shown
  write_waits gs =
      let t = tally_from nothing_yet gs in
      ("" ∷ concat ("not idle: " ∷ show t.busy ∷ []) ∷ shown_table t.shown) ++ not_shown t
