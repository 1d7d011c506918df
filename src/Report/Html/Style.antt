-- ===== src/Report/Html/Style.antt =====
-- report_generator.py: the style of the page that `generate_html` makes.
use integrated_work_tll.Prelude.{String, List, [], ◌∷◌}

abbrev pub style_lines : List String
style_lines =
    "  <style>\n"
    ∷ "    *, *::before, *::after { box-sizing: border-box; margin: 0; padding: 0; }\n"
    ∷ "    body { font-family: -apple-system, BlinkMacSystemFont, 'Segoe UI', sans-serif;\n"
    ∷ "           background: #f8fafc; color: #1e293b; line-height: 1.6; }\n"
    ∷ "    .container { max-width: 960px; margin: 0 auto; padding: 2rem 1.5rem; }\n"
    ∷ "    h1 { font-size: 22px; font-weight: 700; margin-bottom: 4px; }\n"
    ∷ "    .meta { color: #64748b; font-size: 13px; margin-bottom: 2rem; }\n"
    ∷ "    .meta span { margin-right: 1.5rem; }\n" ∷ "\n" ∷ "    /* Summary cards */\n"
    ∷ "    .summary-grid { display: grid; grid-template-columns: repeat(auto-fit, minmax(130px, 1fr)); gap: 12px; margin-bottom: 2rem; }\n"
    ∷ "    .summary-card { background: #fff; border: 1px solid #e2e8f0; border-radius: 10px; padding: 1rem; text-align: center; }\n"
    ∷ "    .summary-card .num { font-size: 28px; font-weight: 700; }\n"
    ∷ "    .summary-card .lbl { font-size: 12px; color: #64748b; text-transform: uppercase; letter-spacing: .05em; }\n"
    ∷ "\n" ∷ "    /* Issues */\n"
    ∷ "    .issue { background: #fff; border: 1px solid #e2e8f0; border-radius: 12px; margin-bottom: 16px; overflow: hidden; }\n"
    ∷ "    .issue-header { display: flex; align-items: center; gap: 10px; padding: 12px 16px;\n"
    ∷ "                     border-bottom: 1px solid #f1f5f9; background: #f8fafc; flex-wrap: wrap; }\n"
    ∷ "    .issue-num { font-size: 13px; color: #94a3b8; font-weight: 600; }\n"
    ∷ "    .issue-type { font-size: 12px; color: #475569; font-family: monospace; }\n"
    ∷ "    .issue-title { font-size: 14px; font-weight: 600; flex: 1; min-width: 200px; }\n"
    ∷ "    .issue-body { padding: 16px; }\n"
    ∷ "    .section-label { font-size: 11px; font-weight: 600; text-transform: uppercase; letter-spacing: .07em;\n"
    ∷ "                      color: #94a3b8; margin: 16px 0 6px; }\n"
    ∷ "    .grid2 { display: grid; grid-template-columns: 1fr 1fr; gap: 6px; font-size: 13px; margin-bottom: 4px; }\n"
    ∷ "    @media(max-width: 560px) { .grid2 { grid-template-columns: 1fr; } }\n"
    ∷ "    p { font-size: 13px; color: #475569; }\n"
    ∷ "    code { background: #f1f5f9; padding: 1px 6px; border-radius: 4px; font-size: 12px; }\n"
    ∷ "    pre.curl { background: #0f172a; color: #e2e8f0; padding: 12px 16px; border-radius: 8px;\n"
    ∷ "                font-size: 12px; overflow-x: auto; white-space: pre-wrap; word-break: break-all; margin-top: 4px; }\n"
    ∷ "    .evidence-table { width: 100%; border-collapse: collapse; font-size: 13px; margin-top: 4px; }\n"
    ∷ "    .evidence-table td { padding: 5px 10px; border: 1px solid #f1f5f9; vertical-align: top; }\n"
    ∷ "    .evidence-table td:first-child { color: #64748b; white-space: nowrap; width: 160px; background: #f8fafc; font-weight: 500; }\n"
    ∷ "    .recommendation { background: #f0fdf4; border-left: 3px solid #22c55e; padding: 10px 14px;\n"
    ∷ "                       border-radius: 0 6px 6px 0; font-size: 13px; color: #166534; margin-top: 4px; }\n"
    ∷ "    hr { border: none; border-top: 1px solid #e2e8f0; margin: 2rem 0; }\n"
    ∷ "    .footer { text-align: center; font-size: 12px; color: #94a3b8; margin-top: 2rem; }\n"
    ∷ "  </style>\n" ∷ []
