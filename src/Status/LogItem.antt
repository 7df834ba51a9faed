-- ===== src/Status/LogItem.antt =====
-- The log items of sdk/src/status_tracker/log_item.rs.
use c2pa_rs_html.Prelude.{ℕ, Text, Option, some}

pub data LogKind : Type 0 where
  success informational failure : LogKind

pub record LogItem : Type 0 where
  pub kind : LogKind
  pub label : Text
  pub description : Text
  pub crate_name : Text
  pub crate_version : Text
  pub file : Text
  pub function : Text
  pub line : ℕ
  pub err_val : Option Text
  pub validation_status : Option Text
  pub ingredient_uri : Option Text

-- `LogItem::validation_status`, the setter.
abbrev pub with_status : Text → LogItem → LogItem
with_status status item = record item { validation_status = some status }

abbrev pub set_ingredient_uri : Text → LogItem → LogItem
set_ingredient_uri uri item = record item { ingredient_uri = some uri }

abbrev pub of_kind : LogKind → LogItem → LogItem
of_kind k item = record item { kind = k }

-- `format!("{err:?}")` is an argument: the text of the error.
abbrev pub as_failure : Text → LogItem → LogItem
as_failure shown item = record item { kind = failure; err_val = some shown }
