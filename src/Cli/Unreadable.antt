-- ===== src/Cli/Unreadable.antt =====
-- cmd/kbdiag/main.go: a cluster whose metadata could not be read is never reported OK.
use kbdiag.Prelude.{concat, ◌==◌, String, Bool, true, false, List, [], ◌∷◌, ◌≡◌, refl, arith}
use text.Mathlib.TextLemmas.{cons-append}
use kbdiag.Unicode.{Unicode}
use kbdiag.Facts.Base as Facts
use kbdiag.Facts.Base.{Status, Floats, Times}
use kbdiag.Facts.Cluster.{ClusterNodes, ClusterEvents, ClusterSyncs}
use kbdiag.Facts.Inst.{InstDownstreams}
use kbdiag.Rule.Base.{is_ok}
use kbdiag.Rule.Cluster.Health.{cluster-verdict, cluster_verdict}
use kbdiag.Rule.Names.{is_empty}
use kbdiag.Rule.Vacuum.{Singles}
use kbdiag.Report.{Report, exit_code, new, add_probe}
use kbdiag.Scenario.Commands as Scenario
use kbdiag.Conn.Failures.{Failure, Attempt, done, failed, missing_database, server_error}
use kbdiag.Cli.Outside.{Host}
use kbdiag.Cli.{GlobalFlags, write, diagnose, identified, connected, run_code}
use kbdiag.Cli.Commands.{
  cluster_skip, cluster_build, cluster_tried, run_cluster, in_repmgr_db, refused_text,
}

starts : (s : String) (ss : List String) → is_empty s ≡ false → is_empty (concat (s ∷ ss)) ≡ false
unfolding concat
starts String.[] ss e = absurd (ground (arith, e))
starts (String.◌∷◌ c s) ss e = rw cons-append refl

module _ {X F T : Type 0} (h : Host X F T) where
  -- A report that is never OK does not exit with 0.
  write-nonzero :
      (r : Report F) (json : Bool)
      → is_ok r.verdict ≡ false
      → (run_code (record { error = write h r json; notes = [] }) == 0) ≡ false
  unfolding write run_code exit_code
  write-nonzero r json bad = ground (arith, bad)

  identified-nonzero :
      (g : GlobalFlags) (build : Facts.Context T → Report F × List String)
      → ((c : Facts.Context T) → is_ok (build c).0.verdict ≡ false)
      → (a : Attempt (Facts.Context T)) → (run_code (identified h g build a) == 0) ≡ false
  unfolding identified run_code exit_code
  identified-nonzero g build bad (failed e) = refl
  identified-nonzero g build bad (done c) = write-nonzero (build c).0 g.json (bad c)

  connected-nonzero :
      (g : GlobalFlags) (build : X → Facts.Context T → Report F × List String)
      → ((x : X) (c : Facts.Context T) → is_ok (build x c).0.verdict ≡ false)
      → (a : Attempt X) → (run_code (connected h g build a) == 0) ≡ false
  unfolding connected run_code
  connected-nonzero g build bad (failed e) = refl
  connected-nonzero g build bad (done x) =
      identified-nonzero g (build x) (bad x) (h.identify x g.cfg)

  diagnose-nonzero :
      (g : GlobalFlags) (build : X → Facts.Context T → Report F × List String)
      → ((x : X) (c : Facts.Context T) → is_ok (build x c).0.verdict ≡ false)
      → (run_code (diagnose h g build) == 0) ≡ false
  unfolding diagnose
  diagnose-nonzero g build bad = connected-nonzero g build bad (h.connect g.cfg)

module _ {F T : Type 0} ⦃fl : Floats F⦄ ⦃tm : Times T⦄ ⦃u : Unicode⦄ where
  skipped-verdict :
      (c : Facts.Context T) (why : String) (e : ClusterEvents F T) (d : InstDownstreams)
      (s : ClusterSyncs)
      → is_ok
          (Scenario.cluster c
            (record { status = Status.skipped; reason = why; rows = [] })
            e
            d
            s).verdict
        ≡ false
  unfolding Scenario.cluster new add_probe
  skipped-verdict c why e d s =
      let n : ClusterNodes = record { status = Status.skipped; reason = why; rows = [] } in
      unfold cluster_verdict in ground (arith, cluster-verdict F n d s c.role)

module _ {X F T : Type 0} (h : Host X F T) ⦃fl : Floats F⦄ ⦃tm : Times T⦄ ⦃u : Unicode⦄
    ⦃sg : Singles F⦄ where
  cluster_build-unread :
      (g : GlobalFlags) (skip : String) (explicit : Bool) (x : X) (c : Facts.Context T)
      → is_empty (cluster_skip skip explicit c (h.cluster_nodes x c)) ≡ false
      → is_ok (cluster_build h g skip explicit x c).verdict ≡ false
  unfolding cluster_build
  cluster_build-unread g skip explicit x c e = rw e (skipped-verdict c _ _ _ _)

  refused-skip :
      (e : Failure) (c : Facts.Context T) (n : ClusterNodes)
      → is_empty (cluster_skip (refused_text e) false c n) ≡ false
  unfolding cluster_skip
  refused-skip e c n = go n.status
    where
      go :
          (st : Status)
          → is_empty (elim st as (λ _. String) [
            | Status.not_applicable ↦ refused_text e
            | _ ↦ refused_text e
          ])
            ≡ false
      go Status.ok = starts "cannot connect to database " _ refl
      go Status.skipped = starts "cannot connect to database " _ refl
      go Status.error = starts "cannot connect to database " _ refl
      go Status.not_applicable = starts "cannot connect to database " _ refl

  -- When the server refuses a connection to repmgr's database esrep with an error other than that
  -- the database is missing, `kbdiag cluster` without -d does not exit with 0, whatever it then
  -- reads from the default database: it never calls a cluster OK whose metadata it could not read.
  pub run_cluster-refused :
      (g : GlobalFlags) (e : Failure)
      → h.probe_open (in_repmgr_db g).cfg ≡ failed e
      → server_error e ≡ true
      → missing_database e ≡ false
      → (run_code (run_cluster h g false) == 0) ≡ false
  unfolding run_cluster cluster_tried
  run_cluster-refused g e opened answered other = rw opened (
      rw answered (
        rw other (
          diagnose-nonzero h g _ λ x c.
            cluster_build-unread g (refused_text e) false x c
              (refused-skip e c (h.cluster_nodes x c)))))

  -- When -d names a database and repmgr's schema is not in it, `kbdiag cluster` does not exit with 0.
  pub run_cluster-no_schema :
      (g : GlobalFlags)
      → ((x : X) (c : Facts.Context T) → (h.cluster_nodes x c).status ≡ Status.not_applicable)
      → (run_code (run_cluster h g true) == 0) ≡ false
  unfolding run_cluster cluster_skip
  run_cluster-no_schema g none_there = diagnose-nonzero h g _ λ x c.
      cluster_build-unread g "" true x c
        (rw (none_there x c) (starts "no repmgr schema in database " _ refl))
