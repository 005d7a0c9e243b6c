-- ===== src/Apply/Preview.antt =====
-- What a preview does to the target: apps/api/src/apply/dry-run.service.ts.
use dbflow.Common.{
  ℕ, ◌+◌, Bool, true, false, ◌≡◌, refl, sym, subst, ◌∙◌, List, [], ◌∷◌, any, In, any-eq-false,
  Bool-cases, Option-cases, inl, inr, arith,
}
use dbflow.Store.{Key, Text, Actor, TargetDatabase, File, Db, Result-cases}
use dbflow.Sql.Analyzer.{AnalyzedStatement, analyze_sql}
use dbflow.Apply.Server.{Server}
use dbflow.Apply.Gate.{files_of}
use dbflow.Apply.DryRun.{
  is_destructive, is_skipped, run_statements, run_dml, dry_run_file, dry_run_files, dry_run_target,
  dry_run,
}

-- A server whose transactions can be rolled back: after `begin`, the statements of a text that change
-- rows and are no DDL stay in a transaction that the rollback undoes. `Open w w'` says that w' is in a
-- transaction begun in w.
pub record IsTransactional (server : Server) : Type 1 where
  pub Open : server.World → TargetDatabase → server.World → Type 0
  pub begins :
      (w : server.World) (target : TargetDatabase) → Open w target (server.begin w target).0
  pub stays :
      (w w' : server.World) (target : TargetDatabase) (content : Text) (s : AnalyzedStatement)
      → In s (analyze_sql content)
      → s.is_ddl ≡ false
      → is_skipped s.kind ≡ false
      → Open w target w'
      → Open w target (server.query w' target s.raw).0
  pub undone :
      (w w' : server.World) (target : TargetDatabase)
      → Open w target w'
      → server.roll_back w' target ≡ w

-- A statement of a text, and no DDL.
abbrev IsPlain : AnalyzedStatement → Type 0
IsPlain s = ((content : Text) × In s (analyze_sql content)) × (s.is_ddl ≡ false)

module _ (server : Server) (law : IsTransactional server) where
  run_statements-Open :
      (target : TargetDatabase) (ss : List AnalyzedStatement) (rows : ℕ) (w w' : server.World)
      → ((s : AnalyzedStatement) → In s ss → IsPlain s)
      → law.Open w target w'
      → law.Open w target (run_statements server target ss rows w').0
  unfolding run_statements
  run_statements-Open target [] rows w w' plain h = h
  run_statements-Open target (s ∷ ss) rows w w' plain h =
      let after = (server.query w' target s.raw).0 in
      let here = run_statements server target (s ∷ ss) rows w' in
      let rest = run_statements-Open target ss in
      let ((content, from), no_ddl) = plain s (inl refl) in
      elim (Bool-cases (is_skipped s.kind)) [
        | inl skipped ↦
            let same : here.0 ≡ (run_statements server target ss rows w').0 = ground arith in
            subst (law.Open w target) (sym same) (rest rows w w' (λ s m. plain s (inr m)) h)
        | inr sent ↦
            let kept = law.stays w w' target content s from no_ddl sent h in
            elim (Option-cases (server.query w' target s.raw).1) [
              | inl failed ↦
                  let same : here.0 ≡ after = ground arith in
                  subst (law.Open w target) (sym same) kept
              | inr (n, ran) ↦
                  let same : here.0 ≡ (run_statements server target ss (rows + n) after).0 =
                    ground arith in
                  subst (law.Open w target) (sym same)
                    (rest (rows + n) w after (λ s m. plain s (inr m)) kept)
            ]
      ]

  run_dml-same :
      (file : File) (destructive : Bool) (ss : List AnalyzedStatement) (target : TargetDatabase)
      (w w' : server.World) (begun : Bool)
      → ((s : AnalyzedStatement) → In s ss → IsPlain s)
      → law.Open w target w'
      → (run_dml server file destructive ss target (w', begun)).0 ≡ w
  unfolding run_dml
  run_dml-same file destructive ss target w w' false plain h = law.undone w w' target h
  run_dml-same file destructive ss target w w' true plain h =
      law.undone w (run_statements server target ss 0 w').0 target
        (run_statements-Open target ss 0 w w' plain h)

  dry_run_file-same :
      (file : File) (target : TargetDatabase) (w : server.World)
      → (dry_run_file server file target w).0 ≡ w
  unfolding dry_run_file
  dry_run_file-same file target w =
      let ss = analyze_sql file.content in
      let (w', begun) = server.begin w target in
      elim (Bool-cases (any (λ (s : AnalyzedStatement). s.is_ddl) ss)) [
        | inl ddl ↦ ground arith
        | inr plain ↦ ground (
          arith,
          run_dml-same file (any is_destructive ss) ss target w w' begun
              (λ s m. (
                (file.content, m),
                any-eq-false (λ (s : AnalyzedStatement). s.is_ddl) ss plain s m,
              ))
              (law.begins w target),
        )
      ]

  dry_run_files-same :
      (files : List File) (target : TargetDatabase) (w : server.World)
      → (dry_run_files server files target w).0 ≡ w
  unfolding dry_run_files
  dry_run_files-same [] target w = refl
  dry_run_files-same (f ∷ fs) target w =
      dry_run_files-same fs target (dry_run_file server f target w).0 ∙ dry_run_file-same f target w

  -- Whatever the files hold and however the preview ends, the target is as before, if its transactions
  -- can be rolled back.
  pub dry_run-same :
      (db : Db) (actor : Actor) (cr_id target_id : Key) (w : server.World)
      → (dry_run server db actor cr_id target_id w).0 ≡ w
  unfolding dry_run
  dry_run-same db actor cr_id target_id w =
      elim (Result-cases (dry_run_target server db actor cr_id target_id)) [
        | inr (f, e) ↦ ground arith
        | inl (target, e) ↦
            let same = dry_run_files-same (files_of cr_id db) target w in ground arith
      ]
