-- ===== src/Management/Semester/Interleaving.antt =====
-- Several requests at once. Between two statements of a request other transactions may run: here
-- each statement of the request is preceded by the next of a list of functions on the tables.
use e_campus_server.Prelude.{ℕ, zero, suc, ◌≡◌, List, [], ◌∷◌, ok, Method}
use e_campus_server.Management.Errors.{Error}
use e_campus_server.Management.Semester.Data.{Semester}
use e_campus_server.Management.Semester.Service.{SemesterRepository}
use e_campus_server.Management.Semester.Postgres.{Tables, find_semester, postgres}

pub record World : Type 0 where
  pub tables : Tables
  pub others : List (Tables → Tables)

abbrev pub after : List (Tables → Tables) → Tables → World
after [] t = record { tables = t; others = [] }
after (f ∷ fs) t = record { tables = f t; others = fs }

-- The world once the next foreign transaction has run.
abbrev pub disturb : World → World
disturb w = after w.others w.tables

abbrev pub interleave : {A : Type 0} → Method Tables Error A → Method World Error A
interleave m w =
    let w' = disturb w in let (r, t) = m w'.tables in (r, record { tables = t; others = w'.others })

abbrev pub shared : SemesterRepository World
shared = record {
  create_semester = λ s. interleave (postgres.create_semester s);
  get_semester = λ id. interleave (postgres.get_semester id);
  update_semester = λ s v. interleave (postgres.update_semester s v);
  semester_exists = λ y t. interleave (postgres.semester_exists y t);
  get_academic_year = λ y. interleave (postgres.get_academic_year y);
}

-- The tables after the first so many foreign transactions, and nothing else.
unfoldable pub advance : ℕ → World → Tables
advance zero w = w.tables
advance (suc k) w = advance k (disturb w)

-- A transaction that changes a live semester gives it another version.
abbrev pub BumpsVersion : (Tables → Tables) → Type 0
BumpsVersion f =
    (t : Tables) (id : ℕ) (r r' : Semester)
    → find_semester id t.semesters ≡ ok r
    → find_semester id (f t).semesters ≡ ok r'
    → r'.version ≡ r.version
    → r' ≡ r
