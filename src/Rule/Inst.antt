-- ===== src/Rule/Inst.antt =====
-- internal/rule/inst.go: Waits, Status, connections, upstream.
pub mod Laws
pub mod Hidden
use kbdiag.Prelude.{
  ℤ, pos, leb_ℤ, ltb_ℤ, Bool, true, false, String, Option, none, some, List, [], ◌∷◌, ◌++◌, ◌&&◌,
  ◌||◌, not, concat, show, str_eq, if◌then◌else◌,
}
use kbdiag.Facts.Base.{Status, Floats, int, str, float, null, opt_str, opt_int}
use kbdiag.Facts.Inst.{
  Info, InstInfo, InstDatabases, InstDownstreams, Upstream, InstUpstream, usable, inst_info_id,
  inst_upstream_id,
}
use kbdiag.Facts.Wait as Wait
use kbdiag.Facts.Wait.{WaitSummary}
use kbdiag.Rule.Base.{
  Level, Finding, Result, Next, Seen, hidden, quiet, flagged, verify, judged, collected,
  findings_of, some_hidden,
}
use kbdiag.Units.{duration}

abbrev pub is_nil {ℓ} : {A : Type ℓ} → List A → Bool
is_nil [] = true
is_nil _ = false

-- Waits
unfoldable pub waits : {F : Type 0} → WaitSummary → Result F
waits w =
    let (judge, unseen) = collected w.status in
    judged [] (if judge && not (is_nil (Wait.redacted w)) then true else unseen)

module _ {F T : Type 0} where
  unfoldable pub connections_finding : Info F T → Finding F
  connections_finding x = record {
    id = "inst.connections";
    level = Level.fail;
    symptom = concat (
        show x.connections
        ∷ " connections in use, reaching the "
        ∷ show (usable x)
        ∷ " ordinary users may open (max_connections "
        ∷ show x.max_connections
        ∷ " minus "
        ∷ show x.superuser_reserved
        ∷ " reserved for superusers): ordinary users can no longer connect"
        ∷ []);
    evidence =
        (record {
          probe_id = inst_info_id;
          fields =
              ("connections", int x.connections)
              ∷ ("max_connections", int x.max_connections)
              ∷ ("superuser_reserved_connections", int x.superuser_reserved)
              ∷ [];
        })
        ∷ [];
    cause = none;
    next =
        verify "kbdiag sessions"
          "who holds the connections: the summary at the top counts them by user, database, application and client"
        ∷ [];
  }

  -- connections
  unfoldable pub connections : Info F T → Seen F
  connections x =
      let free = usable x in
      if leb_ℤ free (pos 0) || ltb_ℤ x.connections free
      then quiet
      else flagged (connections_finding x)

abbrev pub upstream_next : List Next
upstream_next = verify "kbdiag slots" "run on the primary: is this standby's slot inactive?" ∷ []

module _ {F : Type 0} ⦃fl : Floats F⦄ where
  unfoldable pub no_receiver : Finding F
  no_receiver = record {
    id = "inst.upstream";
    level = Level.warn;
    symptom =
        "the standby has no WAL receiver and is not receiving WAL from the primary: if the primary fails now, no standby can take over";
    evidence = (record { probe_id = inst_upstream_id; fields = ("status", null) ∷ [] }) ∷ [];
    cause = none;
    next = upstream_next;
  }

  unfoldable pub stuck_receiver : Upstream F → String → F → F → Finding F
  stuck_receiver x status age timeout = record {
    id = "inst.upstream";
    level = Level.warn;
    symptom = concat (
        "the standby's WAL receiver shows streaming, but nothing has come from the primary for "
        ∷ duration age
        ∷ ", longer than wal_receiver_timeout ("
        ∷ duration timeout
        ∷ "), after which a working receiver reconnects: it is stuck (stopped or blocked), so it is not receiving WAL: if the primary fails now, no standby can take over"
        ∷ []);
    evidence =
        (record {
          probe_id = inst_upstream_id;
          fields =
              ("status", str status)
              ∷ ("sender_host", opt_str x.sender_host)
              ∷ ("sender_port", opt_int x.sender_port)
              ∷ ("slot_name", opt_str x.slot_name)
              ∷ ("last_msg_age_s", float age)
              ∷ ("wal_receiver_timeout_s", float timeout)
              ∷ [];
        })
        ∷ [];
    cause = none;
    next = upstream_next;
  }

  unfoldable pub not_streaming : Upstream F → String → Finding F
  not_streaming x status = record {
    id = "inst.upstream";
    level = Level.warn;
    symptom = concat (
        "the standby's WAL receiver is " ∷ status
        ∷ ", not streaming, so it is not receiving WAL from the primary: if the primary fails now, no standby can take over"
        ∷ []);
    evidence =
        (record {
          probe_id = inst_upstream_id;
          fields =
              ("status", str status)
              ∷ ("sender_host", opt_str x.sender_host)
              ∷ ("sender_port", opt_int x.sender_port)
              ∷ ("slot_name", opt_str x.slot_name)
              ∷ [];
        })
        ∷ [];
    cause = none;
    next = upstream_next;
  }

  -- The message age and the timeout of a receiver that is past it: 0 disables the timeout.
  unfoldable pub past_timeout : Upstream F → Option (F × F)
  past_timeout x = elim x.last_msg_age_s [
    | none ↦ none
    | some age ↦ elim x.wal_receiver_timeout_s [
      | none ↦ none
      | some timeout ↦
          if fl.le timeout (fl.of_int (pos 0)) || fl.le age timeout
          then none
          else some (age, timeout)
    ]
  ]

  -- The loop of upstream over the rows: `quiet` is (Finding{}, false, false), `hidden` is
  -- (Finding{}, false, true).
  unfoldable pub upstream_rows : List (Upstream F) → Seen F
  unfolding past_timeout
  upstream_rows [] = quiet
  upstream_rows (x ∷ xs) = elim x.status [
    | none ↦ hidden
    | some status ↦ elim (str_eq status "streaming") [
      | true ↦ elim (past_timeout x) [
        | none ↦ upstream_rows xs
        | some (age, timeout) ↦ flagged (stuck_receiver x status age timeout)
      ]
      | false ↦ flagged (not_streaming x status)
    ]
  ]

  -- upstream
  unfoldable pub upstream : InstUpstream F → Seen F
  upstream u =
      let (judge, unseen) = collected u.status in
      if not judge
      then (if unseen then hidden else quiet)
      else elim u.rows [ [] ↦ flagged no_receiver | x ∷ xs ↦ upstream_rows (x ∷ xs) ]

-- What a rule appends of one judgement, and whether it was in the dark.
abbrev pub finding_of : {F : Type 0} → Seen F → List (Finding F)
finding_of (flagged f) = f ∷ []
finding_of _ = []

abbrev pub dark : {F : Type 0} → Seen F → Bool
dark hidden = true
dark _ = false

module _ {F T : Type 0} ⦃fl : Floats F⦄ where
  -- Status
  unfoldable pub status : InstInfo F T → InstDatabases → InstDownstreams → InstUpstream F → Result F
  status i d n u =
      let (judge, unseen) = collected i.status in
      let busy = if judge then findings_of connections i.rows else [] in
      judged (busy ++ finding_of (upstream u))
        (unseen || (collected d.status).1 || (collected n.status).1 || dark (upstream u))
