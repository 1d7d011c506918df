-- ===== src/Tests/Analysis.antt =====
-- Runs of the report service and of the dashboard.
use integrated_work_tll.Prelude.{String, ◌≡◌, refl, sym, ap, [], ◌∷◌, none, some}
use integrated_work_tll.Redis.Memory.{some_eq}
use integrated_work_tll.Analysis.{ApiReport, Run, generated, generate_report}
use integrated_work_tll.Analysis.Responses.{Claims}
use integrated_work_tll.Analysis.Findings.{IsReport, found_issues, generate_report-IsReport}
use integrated_work_tll.Analysis.Unknown.{generate_report-unknown}
use integrated_work_tll.Api.Tables.Memory.{memory_tables}
use integrated_work_tll.Api.Dashboard.{get_dashboard_stats}
use integrated_work_tll.Api.Dashboard.Scores.{IsScored, get_dashboard_stats-IsScored}
use integrated_work_tll.Tests.{floats, draws, stamp}
use integrated_work_tll.Tests.Api.{scan, task_row, second_row, rows}

-- A token is the name of its user.
abbrev pub run : Run
run = record {
  floats = floats;
  draw = draws;
  start = 0;
  end = 9;
  stamp = stamp;
  isoformat = λ n. "a time";
  tokens = record {
    loads = λ s. none;
    dumps = λ v. "";
    decode = λ s. some (record { role = some "user"; user_id = some s });
  };
  save = λ r. some (("json", "report.json") ∷ []);
  save_error = "";
}

-- Tokens with a role and no user.
abbrev unnamed : Run
unnamed = record run {
  tokens = record {
    loads = λ s. none;
    dumps = λ v. "";
    decode = λ s. some (record { role = some s; user_id = none });
  };
}

generate_report-IsReport_example :
    (r : ApiReport) × (generate_report run memory_tables "s-1" rows ≡ generated r)
    × IsReport run.isoformat (found_issues run memory_tables "s-1" scan rows) r
generate_report-IsReport_example =
    generate_report-IsReport run memory_tables "s-1" scan rows (("json", "report.json") ∷ []) refl
      refl

no_user : (token : String) (c : Claims) → unnamed.tokens.decode token ≡ some c → c.user_id ≡ none
no_user token c e = sym (ap (λ (x : Claims). x.user_id) (some_eq e))

generate_report-unknown_example :
    (r : ApiReport) × (generate_report unnamed memory_tables "s-1" rows ≡ generated r)
    × (r.vulnerabilities ≡ [])
    × (r.issues_found ≡ 0)
generate_report-unknown_example =
    generate_report-unknown unnamed memory_tables no_user "s-1" scan rows
      (("json", "report.json") ∷ []) refl refl

get_dashboard_stats-IsScored_example : IsScored run memory_tables rows (
    get_dashboard_stats run
      (λ s. some s)
      9
      memory_tables
      (task_row ∷ second_row ∷ [])
      (second_row ∷ task_row ∷ [])
      rows)
get_dashboard_stats-IsScored_example =
    get_dashboard_stats-IsScored run (λ s. some s) 9 memory_tables (task_row ∷ second_row ∷ [])
      (second_row ∷ task_row ∷ []) rows
