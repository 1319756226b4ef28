-- ===== src/Reconciliation/Command.antt =====
-- internal/reconciliation/app/service.go: the import of a settlement file, as it is asked for, and the
-- checks before anything is read or written.
use payment_gateway.Base.{ℕ, String, Option, List, ◌&&◌, not, text_eq}
use payment_gateway.Base.Action.{Result, ok, fail_if, ◌>>=◌, ◌>>◌}
use payment_gateway.Base.Ascii.{trim_space, to_lower}
use payment_gateway.Base.Clock.{Time}
use payment_gateway.Ids.{Uuid}
use payment_gateway.Reconciliation.Settlement.{SettlementLine}
use payment_gateway.Reconciliation.Discrepancy.{
  ReconError, parameter_missing, parameter_invalid, unknown_format,
}
use payment_gateway.Reconciliation.Run.{period_for_date}

-- A parser: the provider that it is for, and what it reads from a content.
pub record Parser : Type 0 where
  pub provider : String
  pub parse : String → Result ReconError (List SettlementLine)

-- What the service is given: its settings, the parsers by format, functions of the standard library
-- and of package uuid, the fresh ids, and the clock's readings in the order in which they are made.
pub record Env : Type 0 where
  pub grace_period : Time
  pub max_unsettled : ℕ
  pub parser_for : String → Result ReconError Parser
  pub file_hash : String → String
  pub parse_date : String → Option Time
  pub parse_uuid : String → Option Uuid
  pub print_uuid : Uuid → String
  pub error_text : ReconError → String
  pub file_id : Uuid
  pub run_id : Uuid
  pub line_id : ℕ → Uuid
  pub discrepancy_id : ℕ → Uuid
  pub now : Time
  pub reconcile_now : Time

pub record ImportCommand : Type 0 where
  pub provider : String
  pub format : String
  pub file_name : String
  pub content : String
  pub settlement_date : String
  pub triggered_by : String
  pub storage_uri : String
  pub expected_checksum : String

-- The checks before anything is read: the parser, the period and the checksum.
unfoldable pub check_import : Env → ImportCommand → Result ReconError (Parser × Time × Time)
check_import env cmd = do
  fail_if (text_eq (trim_space cmd.provider) "") parameter_missing
  fail_if (text_eq (trim_space cmd.file_name) "") parameter_missing
  parser ← env.parser_for cmd.format
  fail_if (not (text_eq parser.provider cmd.provider)) unknown_format
  (start_, end_) ← period_for_date env.parse_date cmd.settlement_date
  fail_if
      (not (text_eq cmd.expected_checksum "")
        && not (text_eq (to_lower cmd.expected_checksum) (to_lower (env.file_hash cmd.content))))
      parameter_invalid
  ok (parser, start_, end_)
