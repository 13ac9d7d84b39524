-- ===== src/Pipe/Shares.antt =====
-- The reference counts of a pipe's pages, by which _pipeisclosed of lib/pipe.c sees that the other
-- end is gone, while the environments that share the pipe duplicate and close its ends.
--
-- pipe maps one page for each end and the data page next to both. A step is one system call of some
-- environment: dup and fork map the data page first, fork since it goes down from USTACKTOP;
-- devpipe_close unmaps the descriptor first, and so does env_free, which goes up.
use mit_jos_f22_advanced_os.Base.{ℕ, ◌+◌, ◌-◌, ◌<◌, ◌≡◌, Bool, true, ◌==◌}

-- fd0 of pipe is the end for reading, fd1 the end for writing.
pub data End : Type 0 where
  reading : End
  writing : End

-- `pp_ref` of the pages of the two ends and of the data page; the calls under way that have mapped
-- the data page but not yet their end, and those that have unmapped only the end.
pub record Pages : Type 0 where
  pub fd0 : ℕ
  pub fd1 : ℕ
  pub p_data : ℕ
  pub opening0 : ℕ
  pub opening1 : ℕ
  pub closing : ℕ

-- The counts after the four calls of pipe that allocate and map pages, when they succeed.
unfoldable pub pipe : Pages
pipe = record { fd0 = 1; fd1 = 1; p_data = 2; opening0 = 0; opening1 = 0; closing = 0 }

-- pageref of an end.
abbrev pub pageref_fd : End → Pages → ℕ
pageref_fd reading s = s.fd0
pageref_fd writing s = s.fd1

abbrev pub other : End → End
other reading = writing
other writing = reading

abbrev pub opening : End → Pages → ℕ
opening reading s = s.opening0
opening writing s = s.opening1

-- One round of _pipeisclosed: the end's count read in one state, the data page's in another, which
-- is the same one when no other environment ran in between.
unfoldable pub pipeisclosed : End → Pages → Pages → Bool
pipeisclosed e s t = pageref_fd e s == t.p_data

-- The first sys_page_map of dup.
unfoldable pub map_data : End → Pages → Pages
map_data reading s = record s { p_data = s.p_data + 1; opening0 = s.opening0 + 1 }
map_data writing s = record s { p_data = s.p_data + 1; opening1 = s.opening1 + 1 }

-- The second sys_page_map of dup.
unfoldable pub map_fd : End → Pages → Pages
map_fd reading s = record s { fd0 = s.fd0 + 1; opening0 = s.opening0 - 1 }
map_fd writing s = record s { fd1 = s.fd1 + 1; opening1 = s.opening1 - 1 }

-- The label err of dup, after the second sys_page_map has failed.
unfoldable pub give_up : End → Pages → Pages
give_up reading s = record s { p_data = s.p_data - 1; opening0 = s.opening0 - 1 }
give_up writing s = record s { p_data = s.p_data - 1; opening1 = s.opening1 - 1 }

-- The first sys_page_unmap of devpipe_close.
unfoldable pub unmap_fd : End → Pages → Pages
unmap_fd reading s = record s { fd0 = s.fd0 - 1; closing = s.closing + 1 }
unmap_fd writing s = record s { fd1 = s.fd1 - 1; closing = s.closing + 1 }

-- The second sys_page_unmap of devpipe_close.
unfoldable pub unmap_pipe : Pages → Pages
unmap_pipe s = record s { p_data = s.p_data - 1; closing = s.closing - 1 }

-- fork after a failed sys_page_map of the data page: duppage does not see the error, and fork goes
-- on to the descriptor.
unfoldable pub lose_data : End → Pages → Pages
lose_data reading s = record s { opening0 = s.opening0 + 1 }
lose_data writing s = record s { opening1 = s.opening1 + 1 }

-- devpipe_close in a child that has the descriptor without the data page.
unfoldable pub unmap_bare : End → Pages → Pages
unmap_bare reading s = record s { fd0 = s.fd0 - 1 }
unmap_bare writing s = record s { fd1 = s.fd1 - 1 }

-- A step of some environment. Only an end that is open somewhere can be duplicated or closed. `low`
-- says that memory may be too low for a page table that fork needs in the child.
pub data Step (low : Bool) (s t : Pages) : Type 0 where
  maps_data : (e : End) → 0 < pageref_fd e s → t ≡ map_data e s → Step low s t
  maps_fd : (e : End) → 0 < opening e s → t ≡ map_fd e s → Step low s t
  gives_up : (e : End) → 0 < opening e s → t ≡ give_up e s → Step low s t
  unmaps_fd : (e : End) → 0 < pageref_fd e s → t ≡ unmap_fd e s → Step low s t
  unmaps_data : 0 < s.closing → t ≡ unmap_pipe s → Step low s t
  loses_data : (e : End) → low ≡ true → 0 < pageref_fd e s → t ≡ lose_data e s → Step low s t
  unmaps_bare : (e : End) → low ≡ true → 0 < pageref_fd e s → t ≡ unmap_bare e s → Step low s t

pub data Reach (low : Bool) (s : Pages) : Pages → Type 0 where
  here : Reach low s s
  next : {t u : Pages} → Reach low s t → Step low t u → Reach low s u
