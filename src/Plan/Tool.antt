-- ===== src/Plan/Tool.antt =====
-- pkgs/extensions/tool-plan/src/lib.rs: the tool, which keeps its plan in `host_storage`.
use jan_klod.Common.{String, Bool, true, false, none, some, Result, ok, err}
use jan_klod.Json.{Codec}
use jan_klod.Plan.Steps.{Plan, PlanError, parse_plan, apply, render}

-- The errors that the tool returns.
pub data ToolError : Type 0 where
  invalid_arguments backend : ToolError

-- What `host_storage::get` gives of the tool's one key.
pub data Stored : Type 0 where
  found : String → Stored
  missing : Stored
  failed : Stored

-- `host_storage`, of the tool's one key; a write says whether it succeeded.
pub record Cell (W : Type 0) : Type 0 where
  pub get : W → Stored
  pub set : String → W → Bool × W

module _ {W : Type 0} (codec : Codec) (cell : Cell W) where
  abbrev pub written : String → Bool × W → Result String ToolError × W
  written rendered (true, w) = (ok rendered, w)
  written rendered (false, w) = (err ToolError.backend, w)

  abbrev pub store_plan : Result Plan PlanError → W → Result String ToolError × W
  store_plan (ok plan) w = written (render codec plan) (cell.set (render codec plan) w)
  store_plan (err error) w = (err ToolError.invalid_arguments, w)

  unfoldable pub invoke_on : String → Stored → W → Result String ToolError × W
  invoke_on arguments (found text) w =
      store_plan (apply codec arguments (parse_plan codec (some text))) w
  invoke_on arguments missing w = store_plan (apply codec arguments (parse_plan codec none)) w
  invoke_on arguments failed w = (err ToolError.backend, w)

  unfoldable pub invoke : String → W → Result String ToolError × W
  invoke arguments w = invoke_on arguments (cell.get w) w
