-- ===== src/Report/Save.antt =====
-- report_generator.py: `save_report`, as the files that it writes. Making the folder and writing may
-- raise, which is left out.
pub mod Files
use integrated_work_tll.Prelude.{String, ◌&◌, Bool, List, [], ◌∷◌, ◌++◌, Dict, elem, if◌then◌else◌}
use integrated_work_tll.Models.{ScanReport}
use integrated_work_tll.Report.Texts.{Formats, short_id}
use integrated_work_tll.Report.Data.{ReportDict, generate_json}
use integrated_work_tll.Report.Html.{generate_html}
use integrated_work_tll.Report.Markdown.{generate_markdown}

-- The paths by format, and the texts by path.
pub record Saved : Type 0 where
  pub paths : Dict String
  pub files : Dict String

module _ (fmt : Formats) (dumps : ReportDict → String) where
  -- `Path(output_dir) / ...`; `output_dir` is a path as `Path` writes it.
  abbrev pub folder : String → ScanReport → String
  folder output_dir report =
      output_dir
      & "/scan_"
      & fmt.strftime "%Y%m%d_%H%M%S" report.created_at
      & "_"
      & short_id report.report_id

  abbrev pub write : (format path content : String) → (formats : List String) → Saved → Saved
  write format path content formats saved =
      if elem format formats
      then record {
        paths = saved.paths ++ (format, path) ∷ [];
        files = saved.files ++ (path, content) ∷ [];
      }
      else saved

  unfoldable pub save_report : ScanReport → (output_dir : String) → (formats : List String) → Saved
  unfolding generate_json generate_html generate_markdown
  save_report report output_dir formats =
      let at = folder output_dir report in
      write "md" (at & "/report.md") (generate_markdown fmt report) formats (
        write "html" (at & "/report.html") (generate_html fmt report) formats (
          write "json" (at & "/report.json") (generate_json fmt dumps report) formats
            (record { paths = []; files = [] })))
