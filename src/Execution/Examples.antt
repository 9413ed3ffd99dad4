-- ===== src/Execution/Examples.antt =====
-- The theorems on executions at concrete values.
use ofelia.Common.{true, false, none, some}
use ofelia.Execution.{Buffer, Execution}

abbrev out_buffer : Buffer
out_buffer = record { ident = 1; text = "12 files copied" }

abbrev err_buffer : Buffer
err_buffer = record { ident = 2; text = "" }

abbrev backup_run : Execution
backup_run = record {
  id = "f3a01b9c22d0";
  date = some 100;
  duration = 0;
  is_running = true;
  failed = false;
  skipped = false;
  error = none;
  output_stream = some out_buffer;
  error_stream = some err_buffer;
  captured_stdout = "";
  captured_stderr = "";
}
