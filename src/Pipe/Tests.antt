-- ===== src/Pipe/Tests.antt =====
-- Runs of a pipe.
use osassignment.Prelude.{◌≤◌, ◌≡◌, refl, [], ◌∷◌, ◌++◌, arith}
use osassignment.Memory.{Mem, write}
use osassignment.Pipe.{
  Pipe, pipesize, wrote, pipewrite, got, piperead, read_bytes, get, new_pipe, put,
}
use osassignment.Pipe.Contents.{PipeOk, contents, window}
use osassignment.Pipe.Write.{WriteResult, pipewrite-WriteResult}
use osassignment.Pipe.Read.{ReadOf, piperead-ReadOf}
use osassignment.Pipe.Fifo.{Trace, start, then, writes, reads, Trace-fifo}

abbrev blank : Mem
blank x = 0

abbrev empty_pipe : Pipe
empty_pipe = record { bytes = blank; nread = 0; nwrite = 0; readopen = 1; writeopen = 1 }

-- The counters are about to wrap round.
abbrev late_pipe : Pipe
late_pipe = record {
  bytes = blank;
  nread = 0xfffffffe;
  nwrite = 0xffffffff;
  readopen = 1;
  writeopen = 1;
}

late_pipe-PipeOk : PipeOk late_pipe
late_pipe-PipeOk = record {
  nread_word = omega arith;
  nwrite_word = omega arith;
  room = omega arith;
}

abbrev after_late : Pipe
after_late = record late_pipe { bytes = write (write blank 511 7) 0 8; nwrite = 1 }

late_run : pipewrite 0 (7 ∷ 8 ∷ []) 0 late_pipe ≡ wrote after_late 2
unfolding pipewrite put
late_run = refl

read_run : piperead 0 2 after_late ≡ got (0 ∷ 7 ∷ []) (record after_late { nread = 0 })
unfolding piperead read_bytes get write
read_run = refl

contents_run : contents after_late ≡ 0 ∷ 7 ∷ 8 ∷ []
unfolding window write
contents_run = refl

pipewrite-WriteResult_example :
    WriteResult 0 (7 ∷ 8 ∷ []) 0 late_pipe (pipewrite 0 (7 ∷ 8 ∷ []) 0 late_pipe)
pipewrite-WriteResult_example = pipewrite-WriteResult 0 (7 ∷ 8 ∷ []) 0 late_pipe late_pipe-PipeOk

piperead-ReadOf_example : ReadOf 0 2 late_pipe (piperead 0 2 late_pipe)
piperead-ReadOf_example = piperead-ReadOf 0 2 late_pipe late_pipe-PipeOk

abbrev written_pipe : Pipe
written_pipe = record {
  bytes = write (write blank 0 7) 1 8;
  nread = 0;
  nwrite = 2;
  readopen = 1;
  writeopen = 1;
}

fifo-Trace : Trace (new_pipe blank) (7 ∷ 8 ∷ []) (7 ∷ []) (record written_pipe { nread = 1 })
unfolding new_pipe pipewrite put piperead read_bytes get write
fifo-Trace = then (then start (writes 0 0 (7 ∷ 8 ∷ []))) (reads 0 1 refl)

Trace-fifo_example :
    (7 ∷ 8 ∷ [] ≡ (7 ∷ []) ++ contents (record written_pipe { nread = 1 })) × (1 ≤ pipesize)
Trace-fifo_example =
    Trace-fifo blank (7 ∷ 8 ∷ []) (7 ∷ []) (record written_pipe { nread = 1 }) fifo-Trace
