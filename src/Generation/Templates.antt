-- ===== src/Generation/Templates.antt =====
-- generation/planner.go: the templates of the employees' documents, the styles, and the entries that
-- every manifest has.
use honeygen.Prelude.{List, [], ◌∷◌, ◌++◌}
use honeygen.Text.{Text, codes}
use honeygen.Generation.Worker.{ManifestEntry}

pub record Template : Type 0 where
  pub folder : Text
  pub filename : Text
  pub category : Text
  pub rendered_type : Text
  pub title_suffix : Text
  pub prompt_hint : Text

abbrev template : Text → Text → Text → Text → Text → Text → Template
template folder filename category rendered_type title_suffix prompt_hint = record {
  folder = folder;
  filename = filename;
  category = category;
  rendered_type = rendered_type;
  title_suffix = title_suffix;
  prompt_hint = prompt_hint;
}

unfoldable pub user_doc_templates : List Template
user_doc_templates =
    template (codes "Documents") (codes "meeting-notes.txt") (codes "meeting-notes") (codes "text")
      (codes "Meeting Notes")
      (codes "Create concise internal meeting notes for the employee's current work.")
    ∷ template (codes "Documents") (codes "quarterly-review.md") (codes "quarterly-review")
        (codes "markdown") (codes "Quarterly Review Notes")
        (codes "Create quarterly performance or project review notes.")
    ∷ template (codes "Documents") (codes "expense-report.csv") (codes "expense-report")
        (codes "csv") (codes "Expense Report")
        (codes
          "Return CSV with headers date,description,category,amount for realistic expense entries.")
    ∷ template (codes "Documents") (codes "expense-report.xlsx") (codes "expense-report-xlsx")
        (codes "xlsx") (codes "Expense Report")
        (codes
          "Return CSV with headers date,description,category,amount for realistic expense entries.")
    ∷ template (codes "Documents") (codes "training-notes.txt") (codes "training-notes")
        (codes "text") (codes "Training Notes")
        (codes "Create notes from a recent internal training session.")
    ∷ template (codes "Documents") (codes "onboarding-checklist.md") (codes "onboarding-checklist")
        (codes "markdown") (codes "Onboarding Checklist")
        (codes "Create a new-hire onboarding checklist with common tasks.")
    ∷ template (codes "Documents") (codes "policy-memo.docx") (codes "policy-memo-docx")
        (codes "docx") (codes "Policy Memo")
        (codes "Create a short internal policy memo about a workplace procedure.")
    ∷ template (codes "Desktop") (codes "help.txt") (codes "desktop-reference") (codes "text")
        (codes "Desktop Reference")
        (codes "Create a short desktop quick-reference note with recurring tasks.")
    ∷ template (codes "Desktop") (codes "todo-list.txt") (codes "desktop-todo") (codes "text")
        (codes "To-Do List") (codes "Create a short personal work to-do list.")
    ∷ template (codes "Desktop") (codes "bookmarks.html") (codes "browser-bookmarks") (codes "html")
        (codes "Bookmarks")
        (codes "Create a simple HTML bookmarks page with realistic internal and external links.")
    ∷ template (codes "Desktop") (codes "scratch-notes.txt") (codes "scratch-notes") (codes "text")
        (codes "Scratch Notes")
        (codes "Create informal scratch notes with miscellaneous work reminders.")
    ∷ template (codes "Downloads") (codes "readme.txt") (codes "downloaded-readme") (codes "text")
        (codes "Downloaded README")
        (codes "Create a readme for a downloaded software tool or vendor package.")
    ∷ template (codes "Notes") (codes "weekly-standup.md") (codes "standup-notes")
        (codes "markdown") (codes "Weekly Standup Notes")
        (codes "Create brief weekly standup notes summarizing progress and blockers.")
    ∷ template (codes "Notes") (codes "brainstorm.txt") (codes "brainstorm-notes") (codes "text")
        (codes "Brainstorm Notes")
        (codes "Create informal brainstorming notes for an upcoming initiative.")
    ∷ template (codes "Archive") (codes "old-project-recap.md") (codes "project-recap")
        (codes "markdown") (codes "Project Recap")
        (codes "Create a short retrospective summary of a completed project.")
    ∷ template (codes "Shared") (codes "team-contacts.xlsx") (codes "team-contacts-xlsx")
        (codes "xlsx") (codes "Team Contacts")
        (codes "Return CSV with headers name,email,phone,role for team contact entries.")
    ∷ []

unfoldable pub style_hints : List Text
style_hints =
    codes "Write in a casual, abbreviated note-taking style with bullet points."
    ∷ codes "Write in a formal, detailed memo style with complete sentences."
    ∷ codes "Write in a minimal, sparse style with short phrases and keywords."
    ∷ codes "Write in a conversational, friendly style as if written quickly."
    ∷ codes "Write in a structured, organized style with clear section headers."
    ∷ []

abbrev fixed_entry : Text → Text → Text → Text → Text → Text → Text → ManifestEntry
fixed_entry name path category title rendered_type prompt_hint tag = record {
  path = path;
  category = category;
  title = name ++ title;
  rendered_type = rendered_type;
  source_type = codes "provider";
  prompt_hint = prompt_hint;
  tags = tag ∷ [];
}

-- the entries of every manifest
unfoldable pub fixed_entries : Text → List ManifestEntry
fixed_entries name =
    fixed_entry name (codes "public/about.html") (codes "public-about-page") (codes " Overview")
      (codes "html") (codes "Create a concise public-facing organization overview page.")
      (codes "audience:public")
    ∷ fixed_entry name (codes "public/faq.html") (codes "faq-help-page")
        (codes " Frequently Asked Questions") (codes "html")
        (codes "Create a concise FAQ/help page for external visitors.") (codes "audience:public")
    ∷ fixed_entry name (codes "intranet/about.html") (codes "intranet-about-page")
        (codes " Intranet About") (codes "html")
        (codes "Create an internal intranet about page with teams and operating context.")
        (codes "audience:internal")
    ∷ fixed_entry name (codes "intranet/policies/acceptable-use-policy.md")
        (codes "policy-document") (codes " Acceptable Use Policy") (codes "markdown")
        (codes "Create a practical acceptable use policy for employees.")
        (codes "audience:internal")
    ∷ fixed_entry name (codes "intranet/policies/acceptable-use-policy.pdf")
        (codes "policy-document") (codes " Acceptable Use Policy") (codes "pdf")
        (codes "Create an HTML policy document suitable for PDF export.")
        (codes "audience:internal")
    ∷ fixed_entry name (codes "intranet/vendors/vendor-contacts.csv") (codes "vendor-contact-csv")
        (codes " Vendor Contacts") (codes "csv")
        (codes "Return CSV with headers name,email,phone,service and realistic vendor contacts.")
        (codes "audience:internal")
    ∷ fixed_entry name (codes "intranet/vendors/vendor-contacts.xlsx") (codes "vendor-contact-xlsx")
        (codes " Vendor Contacts") (codes "xlsx")
        (codes "Return CSV with headers name,email,phone,service and realistic vendor contacts.")
        (codes "audience:internal")
    ∷ fixed_entry name (codes "intranet/roster/employee-roster-excerpt.csv")
        (codes "employee-roster-excerpt") (codes " Employee Roster Excerpt") (codes "csv")
        (codes "Return CSV with headers name,role,department,email for an employee roster excerpt.")
        (codes "audience:internal")
    ∷ fixed_entry name (codes "intranet/roster/employee-roster-excerpt.xlsx")
        (codes "employee-roster-xlsx") (codes " Employee Roster Excerpt") (codes "xlsx")
        (codes "Return CSV with headers name,role,department,email for an employee roster excerpt.")
        (codes "audience:internal")
    ∷ fixed_entry name (codes "intranet/policies/acceptable-use-policy.docx")
        (codes "policy-document-docx") (codes " Acceptable Use Policy") (codes "docx")
        (codes "Create a practical acceptable use policy for employees.")
        (codes "audience:internal")
    ∷ []
