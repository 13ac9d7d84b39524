-- ===== src/Pipe/Window.antt =====
-- The unread bytes of a pipe as a window of its ring.
use mit_jos_f22_advanced_os.Base.{
  ℕ, zero, suc, ◌+◌, ◌-◌, ◌%◌, ◌^◌, ◌≤◌, ◌<◌, ◌≡◌, refl, ap, ◌∙◌, false, List, [], ◌∷◌, ◌++◌,
  update, leb, ◌==◌, arith, length,
}
use mit_jos_f22_advanced_os.Pipe.Ring.{Pipe, take_byte, put_byte, st_size, ring_index, is_full}

-- The writer is at most a buffer's length ahead of the reader, and its position has not wrapped.
pub record IsPipe (p : Pipe) : Type 0 where
  pub ahead : p.p_rpos ≤ p.p_wpos
  pub room : p.p_wpos ≤ p.p_rpos + 32
  pub small : p.p_wpos < 2 ^ 31

-- `n` bytes of the ring from position `r` on.
abbrev pub window : ℕ → ℕ → (ℕ → ℕ) → List ℕ
window zero r buf = []
window (suc n) r buf = buf (r % 32) ∷ window n (r + 1) buf

pub ring_index-small : (pos : ℕ) → pos < 2 ^ 31 → ring_index pos ≡ pos % 32
ring_index-small pos h = ground (arith, h)

pub is_full-small :
    (p : Pipe) → p.p_rpos < 2 ^ 31 → p.p_wpos < 2 ^ 31 → is_full p ≡ leb (p.p_rpos + 32) p.p_wpos
is_full-small p h k =
    let off : leb (2 ^ 31) p.p_rpos ≡ false = ground (arith, h) in
    let off' : leb (2 ^ 31) p.p_wpos ≡ false = ground (arith, k) in
    let sum : (p.p_rpos + 32) % 2 ^ 64 ≡ p.p_rpos + 32 = omega (arith, h) in
    rw off (rw off' (rw sum refl))

pub st_size-small :
    (p : Pipe) → p.p_rpos ≤ p.p_wpos → p.p_wpos < 2 ^ 31 → st_size p ≡ p.p_wpos - p.p_rpos
unfolding st_size
st_size-small p h k = omega (arith, h, k)

-- The bytes that are written and not yet read.
abbrev pub contents : Pipe → List ℕ
contents p = window (p.p_wpos - p.p_rpos) p.p_rpos p.p_buf

window-last :
    (n r : ℕ) (buf : ℕ → ℕ) → window (suc n) r buf ≡ window n r buf ++ (buf ((r + n) % 32) ∷ [])
window-last zero r buf = ap (λ k. buf (k % 32) ∷ []) (omega arith)
window-last (suc n) r buf =
    let e : r + 1 + n ≡ r + suc n = omega arith in
    ap (λ l. buf (r % 32) ∷ l)
      (window-last n (r + 1) buf ∙ ap (λ k. window n (r + 1) buf ++ (buf (k % 32) ∷ [])) e)

window-update :
    (n r w b : ℕ) (buf : ℕ → ℕ)
    → r + n ≤ w
    → w < r + 32
    → window n r (update buf (w % 32) b) ≡ window n r buf
window-update zero r w b buf h k = refl
window-update (suc n) r w b buf h k =
    let ih = window-update n (r + 1) w b buf (omega (arith, h)) (omega (arith, k)) in
    let ne : (w % 32 == r % 32) ≡ false = ground (arith, h, k) in
    rw ne (ap (λ l. buf (r % 32) ∷ l) ih)

pub contents-put :
    (b : ℕ) (p : Pipe)
    → IsPipe p
    → p.p_wpos < p.p_rpos + 32
    → contents (put_byte b p) ≡ contents p ++ (b ∷ [])
contents-put b p v lt =
    let n = p.p_wpos - p.p_rpos in
    let buf = update p.p_buf (p.p_wpos % 32) b in
    let e : (p.p_wpos + 1) % 2 ^ 32 - p.p_rpos ≡ suc n = omega (arith, v.ahead, v.small) in
    let idx = ring_index-small p.p_wpos v.small in
    let w : p.p_rpos + n ≡ p.p_wpos = omega (arith, v.ahead) in
    let same = window-update n p.p_rpos p.p_wpos b p.p_buf (omega (arith, w)) lt in
    let last : buf ((p.p_rpos + n) % 32) ≡ b = rw w (ground arith) in
    ap (λ k. window k p.p_rpos (update p.p_buf (ring_index p.p_wpos) b)) e
    ∙ ap (λ j. window (suc n) p.p_rpos (update p.p_buf j b)) idx
    ∙ window-last n p.p_rpos buf
    ∙ ap (λ l. l ++ (buf ((p.p_rpos + n) % 32) ∷ [])) same
    ∙ ap (λ c. window n p.p_rpos p.p_buf ++ (c ∷ [])) last

pub contents-take :
    (p : Pipe)
    → IsPipe p
    → p.p_rpos < p.p_wpos
    → contents p ≡ p.p_buf (ring_index p.p_rpos) ∷ contents (take_byte p)
contents-take p v lt =
    let e : p.p_wpos - p.p_rpos ≡ suc (p.p_wpos - (p.p_rpos + 1)) = omega (arith, lt) in
    let next : (p.p_rpos + 1) % 2 ^ 32 ≡ p.p_rpos + 1 = omega (arith, lt, v.small) in
    let idx = ring_index-small p.p_rpos (omega (arith, lt, v.small)) in
    rw idx (rw next (ap (λ k. window k p.p_rpos p.p_buf) e))

pub length-window : (n r : ℕ) (buf : ℕ → ℕ) → length (window n r buf) ≡ n
length-window zero r buf = refl
length-window (suc n) r buf = omega (arith, length-window n (r + 1) buf)
