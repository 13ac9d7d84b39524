-- ===== src/Pipe/Closed.antt =====
-- What the test of _pipeisclosed says of the other end, now and later.
use mit_jos_f22_advanced_os.Base.{◌+◌, ◌≡◌, true, false, ◌==◌, arith, sym}
use mathlib.Core.Path.{subst}
use mit_jos_f22_advanced_os.Pipe.Shares.{
  End, reading, writing, Pages, pipe, pageref_fd, other, opening, pipeisclosed, map_data, map_fd,
  give_up, unmap_fd, unmap_pipe, Step, maps_data, maps_fd, gives_up, unmaps_fd, unmaps_data,
  loses_data, unmaps_bare, Reach, here, next,
}

-- Each mapping of the data page belongs to an end or to a call under way.
abbrev IsShared : Pages → Type 0
IsShared s = s.p_data ≡ s.fd0 + s.fd1 + s.opening0 + s.opening1 + s.closing

-- No environment has the end, and none is about to.
abbrev IsGone : End → Pages → Type 0
IsGone e s = (pageref_fd e s ≡ 0) × (opening e s ≡ 0)

Step-IsShared : {s t : Pages} → Step false s t → IsShared s → IsShared t
unfolding map_data map_fd give_up unmap_fd unmap_pipe
Step-IsShared (maps_data reading p e) v = subst IsShared (sym e) (omega arith)
Step-IsShared (maps_data writing p e) v = subst IsShared (sym e) (omega arith)
Step-IsShared (maps_fd reading p e) v = subst IsShared (sym e) (omega arith)
Step-IsShared (maps_fd writing p e) v = subst IsShared (sym e) (omega arith)
Step-IsShared (gives_up reading p e) v = subst IsShared (sym e) (omega arith)
Step-IsShared (gives_up writing p e) v = subst IsShared (sym e) (omega arith)
Step-IsShared (unmaps_fd reading p e) v = subst IsShared (sym e) (omega arith)
Step-IsShared (unmaps_fd writing p e) v = subst IsShared (sym e) (omega arith)
Step-IsShared (unmaps_data p e) v = subst IsShared (sym e) (omega arith)
Step-IsShared (loses_data d low p e) v = cc
Step-IsShared (unmaps_bare d low p e) v = cc

Reach-IsShared : {s t : Pages} → Reach false s t → IsShared s → IsShared t
Reach-IsShared here v = v
Reach-IsShared (next r s) v = Step-IsShared s (Reach-IsShared r v)

-- An end that no environment has cannot be opened or closed.
Step-IsGone : (d : End) {s t : Pages} → Step false s t → IsGone d s → IsGone d t
unfolding map_data map_fd give_up unmap_fd unmap_pipe
Step-IsGone reading (maps_data reading p e) g = ground (arith, g, p)
Step-IsGone reading (maps_data writing p e) g = subst (IsGone reading) (sym e) g
Step-IsGone reading (maps_fd reading p e) g = ground (arith, g, p)
Step-IsGone reading (maps_fd writing p e) g = subst (IsGone reading) (sym e) g
Step-IsGone reading (gives_up reading p e) g = ground (arith, g, p)
Step-IsGone reading (gives_up writing p e) g = subst (IsGone reading) (sym e) g
Step-IsGone reading (unmaps_fd reading p e) g = ground (arith, g, p)
Step-IsGone reading (unmaps_fd writing p e) g = subst (IsGone reading) (sym e) g
Step-IsGone reading (unmaps_data p e) g = subst (IsGone reading) (sym e) g
Step-IsGone reading (loses_data d low p e) g = cc
Step-IsGone reading (unmaps_bare d low p e) g = cc
Step-IsGone writing (maps_data reading p e) g = subst (IsGone writing) (sym e) g
Step-IsGone writing (maps_data writing p e) g = ground (arith, g, p)
Step-IsGone writing (maps_fd reading p e) g = subst (IsGone writing) (sym e) g
Step-IsGone writing (maps_fd writing p e) g = ground (arith, g, p)
Step-IsGone writing (gives_up reading p e) g = subst (IsGone writing) (sym e) g
Step-IsGone writing (gives_up writing p e) g = ground (arith, g, p)
Step-IsGone writing (unmaps_fd reading p e) g = subst (IsGone writing) (sym e) g
Step-IsGone writing (unmaps_fd writing p e) g = ground (arith, g, p)
Step-IsGone writing (unmaps_data p e) g = subst (IsGone writing) (sym e) g
Step-IsGone writing (loses_data d low p e) g = cc
Step-IsGone writing (unmaps_bare d low p e) g = cc

Reach-IsGone : (d : End) {s t : Pages} → Reach false s t → IsGone d s → IsGone d t
Reach-IsGone d here g = g
Reach-IsGone d (next r s) g = Step-IsGone d s (Reach-IsGone d r g)

pipe-IsShared : IsShared pipe
unfolding pipe
pipe-IsShared = omega arith

-- The two counts are equal exactly where the other end and every call under way are gone.
pipeisclosed_lem :
    (e : End) (s : Pages)
    → IsShared s
    → pipeisclosed e s s
      ≡ (pageref_fd (other e) s + opening reading s + opening writing s + s.closing == 0)
unfolding pipeisclosed
pipeisclosed_lem reading s v = ground (arith, v)
pipeisclosed_lem writing s v = ground (arith, v)

pipeisclosed-IsGone :
    (e : End) (s : Pages) → IsShared s → pipeisclosed e s s ≡ true → IsGone (other e) s
pipeisclosed-IsGone reading s v h = ground (arith, pipeisclosed_lem reading s v, h)
pipeisclosed-IsGone writing s v h = ground (arith, pipeisclosed_lem writing s v, h)

IsGone-pipeisclosed :
    (e : End) (s : Pages)
    → IsShared s
    → IsGone (other e) s
    → pipeisclosed e s s ≡ (opening e s + s.closing == 0)
IsGone-pipeisclosed reading s v g = ground (arith, pipeisclosed_lem reading s v, g)
IsGone-pipeisclosed writing s v g = ground (arith, pipeisclosed_lem writing s v, g)

-- Where the environments reach a state from pipe, in any order of their system calls of which no
-- mapping of fork fails, and in that state _pipeisclosed of an end, with both counts read in it,
-- says that the pipe is closed: no environment has the other end or maps it anew in any state
-- reached later in this way, and there the test says the same again, except while a dup of the
-- tested end or a close of some end is under way.
pub pipeisclosed-forever :
    (e : End) (s t : Pages)
    → Reach false pipe s
    → pipeisclosed e s s ≡ true
    → Reach false s t
    → (pageref_fd (other e) t ≡ 0)
      × (opening (other e) t ≡ 0)
      × (pipeisclosed e t t ≡ (opening e t + t.closing == 0))
pipeisclosed-forever e s t r h u =
    let v = Reach-IsShared r pipe-IsShared in
    let gone = Reach-IsGone (other e) u (pipeisclosed-IsGone e s v h) in
    (gone.0, gone.1, IsGone-pipeisclosed e t (Reach-IsShared u v) gone)
