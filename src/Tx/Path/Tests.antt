-- ===== src/Tx/Path/Tests.antt =====
-- The way of frames on small inputs.
use carl9170fw.Base.{arith}
use carl9170fw.Tx.Path.Done.{handle_tx_completion}
use carl9170fw.Tx.Path.Buffered.{cab_flush_queue}
use carl9170fw.Tx.Path.Completion.{Returns, handle_tx_completion-Returns}
use carl9170fw.Tx.Path.Samples.{busy, back_req, no_reports-IsValid}
use carl9170fw.Tx.Path.Arrival.{Flushed, cab_flush_queue-Flushed}

handle_tx_completion-Returns_example : Returns busy (handle_tx_completion 5 back_req busy)
handle_tx_completion-Returns_example =
    handle_tx_completion-Returns 5 back_req busy (omega arith) (λ x. omega arith) no_reports-IsValid

cab_flush_queue-Flushed_example : Flushed 0 busy (cab_flush_queue 0 busy)
cab_flush_queue-Flushed_example = cab_flush_queue-Flushed 0 busy (λ x. omega arith)
