-- ===== src/Flow/Charges.antt =====
-- The counters of a user after a report: `processFlowData` in go-backend/service/flow.go.
use flux_panel_v.Base.{ℕ, ◌+◌}
use flux_panel_v.Model.{User, Forward}

-- A user as the report charges him.
abbrev pub charged_user : ℕ → ℕ → User → User
charged_user down up u = record u { in_flow = u.in_flow + down; out_flow = u.out_flow + up }
