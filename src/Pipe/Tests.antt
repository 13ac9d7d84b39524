-- ===== src/Pipe/Tests.antt =====
-- The theorems about lib/pipe.c run on small pipes, and a test of _pipeisclosed that goes wrong.
use mit_jos_f22_advanced_os.Base.{
  ℕ, ◌+◌, ◌-◌, ◌^◌, ◌==◌, ◌≡◌, refl, false, true, List, [], ◌∷◌, arith, length,
}
use mit_jos_f22_advanced_os.Pipe.Ring.{
  Pipe, returned, waiting, devpipe_read, devpipe_write, st_size,
}
use mit_jos_f22_advanced_os.Pipe.Shares.{
  Pages, reading, writing, pipe, pageref_fd, other, opening, pipeisclosed, map_data, map_fd,
  unmap_fd, unmap_pipe, maps_data, maps_fd, unmaps_fd, unmaps_data, lose_data, loses_data, Reach,
  here, next,
}
use mit_jos_f22_advanced_os.Pipe.Closed.{pipeisclosed-forever}
use mit_jos_f22_advanced_os.Pipe.Order.{devpipe_write-devpipe_read}
use mit_jos_f22_advanced_os.Pipe.Window.{IsPipe}

-- Three bytes around the end of the ring.
abbrev wrapped : Pipe
wrapped = record { p_rpos = 30; p_wpos = 33; p_buf = λ i. i + 100 }

abbrev empty : Pipe
empty = record { p_rpos = 31; p_wpos = 31; p_buf = λ i. 0 }

abbrev sent : List ℕ
sent = 7 ∷ 8 ∷ 9 ∷ []

wrapped-IsPipe : IsPipe wrapped
wrapped-IsPipe = record { ahead = omega arith; room = omega arith; small = omega arith }

devpipe_write-devpipe_read_example :
    (p₁ : Pipe) × (p₂ : Pipe) × (devpipe_write sent 0 false empty
      ≡ (returned (length sent), [], p₁))
    × (devpipe_read (length sent) 0 false p₁ ≡ (returned (length sent), sent, p₂))
    × (st_size p₂ ≡ 0)
devpipe_write-devpipe_read_example =
    devpipe_write-devpipe_read sent false empty refl (omega arith) (omega arith)

-- An empty pipe through which 2^31 - 1 bytes have gone: the second of two bytes waits for ever.
abbrev worn : Pipe
worn = record { p_rpos = 2 ^ 31 - 1; p_wpos = 2 ^ 31 - 1; p_buf = λ i. 0 }

worn-waiting : (devpipe_write (7 ∷ 8 ∷ []) 0 false worn).0 ≡ waiting 1
unfolding devpipe_write
worn-waiting = refl

-- A child has both ends after fork, and the parent closes its end for writing.
abbrev forked : Pages
forked = record { fd0 = 2; fd1 = 1; p_data = 3; opening0 = 0; opening1 = 0; closing = 0 }

-- Then the child closes it too.
abbrev finished : Pages
finished = record { fd0 = 2; fd1 = 0; p_data = 2; opening0 = 0; opening1 = 0; closing = 0 }

-- The parent duplicates its end for reading.
abbrev duplicating : Pages
duplicating = record { fd0 = 2; fd1 = 0; p_data = 3; opening0 = 1; opening1 = 0; closing = 0 }

forked-Reach : Reach false pipe forked
unfolding pipe map_data map_fd unmap_fd unmap_pipe
forked-Reach =
    next
      (next
        (next
          (next
            (next (next here (maps_data writing (omega arith) refl))
              (maps_data reading (omega arith) refl))
            (maps_fd writing (omega arith) refl))
          (maps_fd reading (omega arith) refl))
        (unmaps_fd writing (omega arith) refl))
      (unmaps_data (omega arith) refl)

finished-Reach : Reach false pipe finished
unfolding unmap_fd unmap_pipe
finished-Reach =
    next (next forked-Reach (unmaps_fd writing (omega arith) refl)) (unmaps_data (omega arith) refl)

duplicating-Reach : Reach false finished duplicating
unfolding map_data
duplicating-Reach = next here (maps_data reading (omega arith) refl)

finished-pipeisclosed : pipeisclosed reading finished finished ≡ true
unfolding pipeisclosed
finished-pipeisclosed = refl

pipeisclosed-forever_example :
    (pageref_fd (other reading) duplicating ≡ 0)
    × (opening (other reading) duplicating ≡ 0)
    × (pipeisclosed reading duplicating duplicating
        ≡ (opening reading duplicating + duplicating.closing == 0))
pipeisclosed-forever_example =
    pipeisclosed-forever reading finished duplicating finished-Reach finished-pipeisclosed
      duplicating-Reach

-- From `forked` the other environment closes its end for reading.
abbrev one_reader : Pages
one_reader = record { fd0 = 1; fd1 = 1; p_data = 2; opening0 = 0; opening1 = 0; closing = 0 }

one_reader-Reach : Reach false forked one_reader
unfolding unmap_fd unmap_pipe
one_reader-Reach =
    next (next here (unmaps_fd reading (omega arith) refl)) (unmaps_data (omega arith) refl)

-- When the reader has read its count before that and the data page's after it, the test says that
-- the pipe is closed, with a writer left.
stale_counts : (pipeisclosed reading forked one_reader ≡ true) × (one_reader.fd1 ≡ 1)
unfolding pipeisclosed
stale_counts = (refl, refl)

-- fork of the environment that called pipe, with no memory for the child's page table when the data
-- pages are mapped; another environment frees some before the descriptors are.
abbrev starved : Pages
starved = record { fd0 = 2; fd1 = 2; p_data = 2; opening0 = 0; opening1 = 0; closing = 0 }

starved-Reach : Reach true pipe starved
unfolding pipe lose_data map_fd
starved-Reach =
    next
      (next
        (next (next here (loses_data writing refl (omega arith) refl))
          (loses_data reading refl (omega arith) refl))
        (maps_fd writing (omega arith) refl))
      (maps_fd reading (omega arith) refl)

-- The test then says that the pipe is closed, with two writers.
starved-pipeisclosed : pipeisclosed reading starved starved ≡ true
unfolding pipeisclosed
starved-pipeisclosed = refl
