-- ===== src/Rule/Inst/Laws.antt =====
-- internal/rule/inst.go: when an instance is full, when a standby's receiver is healthy, and the
-- verdict of Status.
use kbdiag.Prelude.{
  pos, ltb_ℤ, leb_ℤ, Option, ◌-ℤ◌, -ℤ_parts, wrap32, wrap32_id, ◌≤ℤ◌, ◌<ℤ◌, Bool, true, false, none,
  some, List, [], ◌∷◌, ◌++◌, ◌&&◌, ◌||◌, not, any, any-append, is_some, str_eq, ◌≡◌, ◌↔◌, refl,
  arith, if◌then◌else◌,
}
use kbdiag.Facts.Base.{Status, Floats}
use kbdiag.Facts.Inst.{
  Info, InstInfo, InstDatabases, InstDownstreams, Upstream, InstUpstream, usable,
}
use kbdiag.Rule.Base.{Seen, collected, findings_of}
use kbdiag.Rule.Verdicts.{level_verdict, verdict_of_levels, is_fail, is_warn}
use kbdiag.Rule.Loops.{
  warns, fails, any-fail-findings_of, any-warn-findings_of, any-false, any-cong,
}
use kbdiag.Rule.Inst.{
  connections, connections_finding, past_timeout, upstream_rows, upstream, no_receiver,
  stuck_receiver, not_streaming, finding_of, dark, status,
}

-- A probe that was collected, and one that is missing though it applies.
abbrev pub is_collected : Status → Bool
is_collected Status.ok = true
is_collected _ = false

abbrev pub is_unread : Status → Bool
is_unread Status.ok = false
is_unread Status.not_applicable = false
is_unread _ = true

module _ {F T : Type 0} where
  -- With settings that the server allows (0 ≤ superuser_reserved_connections, and max_connections
  -- in the range of int32), an instance is called full exactly when ordinary users may open some
  -- connections and the ones in use have reached that number; the subtraction does not overflow.
  pub connections-full :
      (x : Info F T)
      → pos 0 ≤ℤ x.max_connections
      → x.max_connections <ℤ pos 2147483648
      → pos 0 ≤ℤ x.superuser_reserved
      → x.superuser_reserved <ℤ pos 2147483648
      → (fails (connections x) ≡ true) ↔ (
          (x.superuser_reserved <ℤ x.max_connections)
          × (x.max_connections -ℤ x.superuser_reserved ≤ℤ x.connections))
  unfolding connections connections_finding usable
  connections-full x h1 h2 h3 h4 =
      let diff = -ℤ_parts x.max_connections x.superuser_reserved in
      let exact : wrap32 (x.max_connections -ℤ x.superuser_reserved)
          ≡ x.max_connections -ℤ x.superuser_reserved =
        wrap32_id (x.max_connections -ℤ x.superuser_reserved) (ground arith) (ground arith) in
      (
        (λ full. (ground (arith, full, exact, diff), ground (arith, full, exact, diff))),
        (λ p. ground (arith, p, exact, diff)),
      )

module _ {F : Type 0} ⦃fl : Floats F⦄ where
  -- The last message is older than the timeout: both are known, and the timeout is not disabled.
  abbrev pub is_late : Option F → Option F → Bool
  is_late (some age) (some timeout) =
      not (fl.le timeout (fl.of_int (pos 0))) && not (fl.le age timeout)
  is_late _ _ = false

  past_timeout-is_late :
      (x : Upstream F)
      → is_some (past_timeout x) ≡ is_late x.last_msg_age_s x.wal_receiver_timeout_s
  unfolding past_timeout
  past_timeout-is_late x = ground arith

  -- A receiver that streams, and whose last message is not older than its timeout.
  abbrev pub is_healthy : Upstream F → Bool
  is_healthy x = elim x.status [
    | none ↦ false
    | some s ↦ str_eq s "streaming" && not (is_late x.last_msg_age_s x.wal_receiver_timeout_s)
  ]

  abbrev pub is_concealed : Upstream F → Bool
  is_concealed x = not (is_some x.status)

  -- What the rows of the receiver come to: the first that is not healthy decides.
  abbrev pub receiver_warns : List (Upstream F) → Bool
  receiver_warns [] = false
  receiver_warns (x ∷ xs) =
      let rest = receiver_warns xs in if is_healthy x then rest else not (is_concealed x)

  abbrev pub receiver_hidden : List (Upstream F) → Bool
  receiver_hidden [] = false
  receiver_hidden (x ∷ xs) =
      let rest = receiver_hidden xs in if is_healthy x then rest else is_concealed x

  upstream_rows-warns :
      (xs : List (Upstream F))
      → (warns (upstream_rows xs) ≡ receiver_warns xs)
        × (dark (upstream_rows xs) ≡ receiver_hidden xs)
        × (fails (upstream_rows xs) ≡ false)
  unfolding upstream_rows stuck_receiver not_streaming
  upstream_rows-warns [] = (refl, refl, refl)
  upstream_rows-warns (x ∷ xs) = ground (arith, upstream_rows-warns xs, past_timeout-is_late x)

  abbrev pub upstream_warns : InstUpstream F → Bool
  upstream_warns u = elim u.rows [ [] ↦ true | x ∷ xs ↦ receiver_warns (x ∷ xs) ]

  pub upstream-cases :
      (u : InstUpstream F)
      → (warns (upstream u) ≡ (is_collected u.status && upstream_warns u))
        × (dark (upstream u)
            ≡ (is_unread u.status || is_collected u.status && receiver_hidden u.rows))
        × (fails (upstream u) ≡ false)
  unfolding upstream no_receiver collected
  upstream-cases u = ground (arith, upstream_rows-warns u.rows)

pub any-fail-finding_of : {F : Type 0} (s : Seen F) → any is_fail (finding_of s) ≡ fails s
any-fail-finding_of s = ground arith

pub any-warn-finding_of : {F : Type 0} (s : Seen F) → any is_warn (finding_of s) ≡ warns s
any-warn-finding_of s = ground arith

module _ {F T : Type 0} ⦃fl : Floats F⦄ where
  -- The connections that ordinary users may open, the int32 difference, are some and all in use.
  abbrev pub is_full : Info F T → Bool
  is_full x =
      let free = wrap32 (x.max_connections -ℤ x.superuser_reserved) in
      ltb_ℤ (pos 0) free && leb_ℤ free x.connections

  connections-is_full : (x : Info F T) → fails (connections {F = F} x) ≡ is_full x
  unfolding connections connections_finding usable
  connections-is_full x = ground arith

  connections-warns : (x : Info F T) → warns (connections x) ≡ false
  unfolding connections connections_finding
  connections-warns x = ground arith

  -- The status rule says FAIL exactly when the instance was read and is full (the int32 difference
  -- of max_connections and the reserved ones is positive, and as many connections are in use), else WARN when a
  -- standby's receiver was read and there is none or one is not healthy before any concealed one,
  -- else UNKNOWN when a probe it reads was skipped or failed or the first receiver that is not
  -- healthy is concealed, and else OK.
  pub status-verdict :
      (i : InstInfo F T) (d : InstDatabases) (n : InstDownstreams) (u : InstUpstream F)
      → (status i d n u).verdict
        ≡ level_verdict
            (is_collected i.status && any is_full i.rows)
            (is_collected u.status && upstream_warns u)
            (is_unread i.status
              || is_unread d.status
              || is_unread n.status
              || is_unread u.status
              || is_collected u.status && receiver_hidden u.rows)
  unfolding status collected
  status-verdict i d n u =
      let busy = if is_collected i.status then findings_of connections i.rows else [] in
      ground (
        arith,
        verdict_of_levels (busy ++ finding_of (upstream u))
            (is_unread i.status || is_unread d.status || is_unread n.status || dark (upstream u)),
        any-append is_fail busy (finding_of (upstream u)),
        any-append is_warn busy (finding_of (upstream u)),
        any-fail-finding_of (upstream u),
        any-warn-finding_of (upstream u),
        any-fail-findings_of (connections {F = F}) i.rows,
        any-warn-findings_of (connections {F = F}) i.rows,
        any-false (connections {F = F}) (λ x. warns (connections {F = F} x)) i.rows
            connections-warns,
        any-cong (λ x. fails (connections {F = F} x)) is_full i.rows connections-is_full,
        upstream-cases u,
      )
