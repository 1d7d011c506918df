-- ===== src/Report/Save/Files.antt =====
-- Which files `save_report` writes.
use integrated_work_tll.Prelude.{
  String, ◌==◌, ◌&◌, ◌≡◌, refl, Bool, true, false, List, [], ◌∷◌, ◌++◌, Dict, keys, elem, select,
  map, if◌then◌else◌,
}
use integrated_work_tll.Models.{ScanReport}
use integrated_work_tll.Report.Texts.{Formats}
use integrated_work_tll.Report.Data.{ReportDict, generate_json}
use integrated_work_tll.Report.Html.{generate_html}
use integrated_work_tll.Report.Markdown.{generate_markdown}
use integrated_work_tll.Report.Save.{Saved, folder, save_report}

abbrev pub values : Dict String → List String
values [] = []
values ((k, v) ∷ d) = v ∷ values d

module _ (fmt : Formats) (dumps : ReportDict → String) (report : ScanReport) (output_dir : String)
    (formats : List String) where
  -- The rendering of a format.
  abbrev pub rendering : String → String
  rendering format =
      if format == "json"
      then generate_json fmt dumps report
      else if format == "html"
      then generate_html fmt report
      else generate_markdown fmt report

  abbrev pub path_of : String → String
  path_of format = folder fmt dumps output_dir report & "/report." & format

  abbrev write_if : Bool → (format content : String) → Saved → Saved
  write_if b format content saved =
      if b
      then record {
        paths = saved.paths ++ (format, path_of format) ∷ [];
        files = saved.files ++ (path_of format, content) ∷ [];
      }
      else saved

  abbrev written_if : (j h m : Bool) → Saved
  written_if j h m = write_if m "md" (generate_markdown fmt report) (
      write_if h "html" (generate_html fmt report)
        (write_if j "json" (generate_json fmt dumps report) (record { paths = []; files = [] })))

  abbrev chosen : (j h m : Bool) → List String
  chosen j h m =
      let rest = if m then "md" ∷ [] else [] in
      let more = if h then "html" ∷ rest else rest in if j then "json" ∷ more else more

  -- The files of a report, of the formats `fs`.
  pub record IsSaved (fs : List String) (saved : Saved) : Type 0 where
    pub formats_of : keys saved.paths ≡ fs
    pub paths_of : values saved.paths ≡ map path_of (keys saved.paths)
    pub written : keys saved.files ≡ values saved.paths
    pub contents : values saved.files ≡ map rendering (keys saved.paths)

  written_if-IsSaved : (j h m : Bool) → IsSaved (chosen j h m) (written_if j h m)
  written_if-IsSaved true true true = record {
    formats_of = refl;
    paths_of = refl;
    written = refl;
    contents = refl;
  }
  written_if-IsSaved true true false = record {
    formats_of = refl;
    paths_of = refl;
    written = refl;
    contents = refl;
  }
  written_if-IsSaved true false true = record {
    formats_of = refl;
    paths_of = refl;
    written = refl;
    contents = refl;
  }
  written_if-IsSaved true false false = record {
    formats_of = refl;
    paths_of = refl;
    written = refl;
    contents = refl;
  }
  written_if-IsSaved false true true = record {
    formats_of = refl;
    paths_of = refl;
    written = refl;
    contents = refl;
  }
  written_if-IsSaved false true false = record {
    formats_of = refl;
    paths_of = refl;
    written = refl;
    contents = refl;
  }
  written_if-IsSaved false false true = record {
    formats_of = refl;
    paths_of = refl;
    written = refl;
    contents = refl;
  }
  written_if-IsSaved false false false = record {
    formats_of = refl;
    paths_of = refl;
    written = refl;
    contents = refl;
  }

  -- A report is written in those of the formats JSON, HTML and Markdown that are asked for, in this
  -- order, whatever other formats are named: one file for each path that is returned, in the folder of
  -- the report, with the rendering of its format.
  pub save_report-IsSaved :
      IsSaved
        (select (λ f. elem f formats) ("json" ∷ "html" ∷ "md" ∷ []))
        (save_report fmt dumps report output_dir formats)
  unfolding save_report
  save_report-IsSaved =
      written_if-IsSaved (elem "json" formats) (elem "html" formats) (elem "md" formats)
