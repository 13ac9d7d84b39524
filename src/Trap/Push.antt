-- ===== src/Trap/Push.antt =====
-- The stores of page_fault_handler of kern/trap.c to the user's exception stack.
--
-- The kernel writes through the page tables of the current environment: at each of the four levels
-- the entry must be present and writable, or the store is a page fault in kernel mode, a panic.
use mit_jos_f22_advanced_os.Base.{
  ℕ, zero, suc, ◌+◌, ◌-◌, ◌*◌, ◌/◌, ◌%◌, ◌^◌, ◌&&◌, not, List, [], ◌∷◌, bit_and, ◌==◌,
  if◌then◌else◌,
}
use mit_jos_f22_advanced_os.Base.Ret.{M, pure, panic, ◌>>=◌, ◌>>◌}
use mit_jos_f22_advanced_os.Pmap.Mem.{
  Machine, Slot, load, store, ppn, present, pte_w, pml4, pdpe, pdx, ptx,
}
use mit_jos_f22_advanced_os.Env.State.{Trapframe}

-- The page that an entry names.
unfoldable pub writable : Slot → M Machine ℕ
writable slot = do
  e ← load slot
  if present e && not (bit_and e pte_w == 0) then pure (ppn e) else panic

unfoldable pub translate : ℕ → ℕ → M Machine ℕ
unfolding writable
translate table va = do
  pdp ← writable (table, pml4 va)
  pde ← writable (pdp, pdpe va)
  pt ← writable (pde, pdx va)
  writable (pt, ptx va)

-- `w` with its byte `i` replaced by `b`.
abbrev pub set_byte : ℕ → ℕ → ℕ → ℕ
set_byte w i b = w - w / 256 ^ i % 256 * 256 ^ i + b * 256 ^ i

unfoldable pub store_byte : ℕ → ℕ → ℕ → M Machine (Unit {0})
unfolding translate
store_byte table va b = do
  page ← translate table va
  w ← load (page, va % 4096 / 8)
  store (page, va % 4096 / 8) (set_byte w (va % 8) b)

-- The `n` low bytes of `w`, the lowest first.
unfoldable pub store_bytes : ℕ → ℕ → ℕ → ℕ → M Machine (Unit {0})
unfolding store_byte
store_bytes zero table va w = pure tt
store_bytes (suc n) table va w = do
  store_byte table va (w % 256)
  store_bytes n table (va + 1) (w / 256)

unfoldable pub store_words : List ℕ → ℕ → ℕ → M Machine (Unit {0})
unfolding store_bytes
store_words [] table va = pure tt
store_words (w ∷ ws) table va = do store_bytes 8 table va w; store_words ws table (va + 8)

-- `struct UTrapframe` (inc/trap.h) as its 64-bit words, in the order of its fields.
abbrev pub utrapframe : ℕ → Trapframe → List ℕ
utrapframe fault_va tf =
    let r = tf.tf_regs in
    fault_va ∷ tf.tf_err ∷ r.reg_r15 ∷ r.reg_r14 ∷ r.reg_r13 ∷ r.reg_r12 ∷ r.reg_r11 ∷ r.reg_r10
    ∷ r.reg_r9 ∷ r.reg_r8 ∷ r.reg_rsi ∷ r.reg_rdi ∷ r.reg_rbp ∷ r.reg_rdx ∷ r.reg_rcx ∷ r.reg_rbx
    ∷ r.reg_rax ∷ tf.tf_rip ∷ tf.tf_eflags ∷ tf.tf_rsp ∷ []
