-- ===== src/Authz/Defaults.antt =====
-- internal/authz/policy_defaults.go and policy_static.go: the compiled-in policies, which the static
-- store serves. A Go map is a list of entries with distinct keys.
mod Rows
mod Structure
mod Calendar
mod Teaching
mod People
mod Classroom
mod Institution
use e_campus_server.Prelude.{List, [], ◌++◌, ◌∷◌, if◌then◌else◌, Result, ok}
use e_campus_server.Authz.Keys.{PolicyKey, eq_key}
use e_campus_server.Authz.Policy.{Policy}
use e_campus_server.Authz.Staff.{Error}
pub use Rows.{Row}
use Structure.{structural_policies}
use Calendar.{calendar_policies}
use Teaching.{teaching_policies}
use People.{people_policies}
use Classroom.{classroom_policies}
use Institution.{institution_policies}

unfoldable pub default_policies : List Row
unfolding structural_policies calendar_policies teaching_policies people_policies classroom_policies
    institution_policies
default_policies =
    structural_policies ++ calendar_policies ++ teaching_policies ++ people_policies
    ++ classroom_policies ++ institution_policies

abbrev pub empty_policy : Policy
empty_policy = record { staff = []; offering = [] }

-- A lookup in the map; a missing key reads as the empty policy.
unfoldable pub lookup_policy : PolicyKey → List Row → Policy
lookup_policy key [] = empty_policy
lookup_policy key (r ∷ rows) = if eq_key r.key key then r.policy else lookup_policy key rows

-- `StaticPolicyStore.PolicyFor`
unfoldable pub static_policy_for : PolicyKey → Result Error Policy
unfolding lookup_policy default_policies
static_policy_for key = ok (lookup_policy key default_policies)
