-- ===== src/Tests/Units.antt =====
-- The theorems about the choice of units, and the reading of systemctl's output, at two units.
use nixadmin.Prelude.{ℕ, ◌+◌, ◌≡◌, refl, ◌<>◌, List, [], ◌∷◌, string_eq}
use nixadmin.Prelude.Result.{ok}
use nixadmin.Remediation.{UnitRow}
use nixadmin.Remediation.Matching.{candidates}
use nixadmin.Remediation.Candidates.{AreCandidates, candidates-AreCandidates}
use nixadmin.Prelude.Words.{split_max, before}
use nixadmin.Prelude.Split.{behind}
use nixadmin.Prelude.Text.{is_space}
use nixadmin.Remediation.Systemctl.{Shell, list_units, parse_units, rows_of, row_of}

abbrev rows : List UnitRow
rows =
    record { name = "backup.service"; active = "failed"; description = "Nightly backup" }
    ∷ record { name = "backup-check.service"; active = "active"; description = "Backup check" }
    ∷ []

candidates-AreCandidates_example : AreCandidates "backup" rows (candidates "backup" rows)
candidates-AreCandidates_example = candidates-AreCandidates "backup" rows

abbrev shell : Shell
shell = record {
  World = ℕ;
  run = λ command w. (
    ok (
        "backup.service loaded failed failed Nightly backup\n"
        <> "home.mount loaded active mounted /home\n"
        <> "backup-check.service loaded active running Backup check\n"),
    w + 1,
  );
  restart_helper = λ unit w. (ok tt, w);
  sleep = λ w. w;
}

listed : list_units shell "user" 0 ≡ (ok rows, 1)
unfolding list_units parse_units rows_of row_of split_max before behind is_space
listed = refl
