-- ===== src/Trap/Fault.antt =====
-- A page fault in user mode with an upcall: what page_fault_handler leaves on the exception stack.
use mit_jos_f22_advanced_os.Base.{
  refl, ◌∙◌, ◌≤◌, ◌*◌, List, [], ◌∷◌, length, All, ℕ, zero, suc, ◌+◌, ◌*◌, ◌/◌, ◌%◌, ◌^◌, ◌≤◌, ◌<◌,
  ◌≡◌, refl, ap, ◌∙◌, sym, ◌≢◌, List, [], ◌∷◌, some, arith, update, fun_ext, length, All,
}
use mathlib.Core.Path.{subst}
use mathlib.Core.Path.{subst}
use mit_jos_f22_advanced_os.Base.Ret.{◌>>=◌, ◌>>◌}
use mit_jos_f22_advanced_os.Pmap.Mem.{Machine}
use mit_jos_f22_advanced_os.Trap.Push.{
  store_bytes, store_words, translate, store_byte, store_bytes, store_words,
}
use mit_jos_f22_advanced_os.Trap.Bytes.{half_written, set_byte-half_written}

abbrev pub put : ℕ → ℕ → ℕ → Machine → Machine
put p s w m = record m { word = update m.word p (update (m.word p) s w) }

-- The `n` bytes from `va` lie in page `p`, for the processor to write, and this does not depend on
-- the words of the page.
abbrev pub IsStack : Machine → ℕ → ℕ → ℕ → ℕ → Type 0
IsStack m table va p n =
    (j : ℕ)
    → j < n
    → (q : Machine) → ((b i : ℕ) → b ≢ p → q.word b i ≡ m.word b i)
    → translate table (va + j) q ≡ some (p, q)

put_twice : (p s a b : ℕ) (m : Machine) → put p s a (put p s b m) ≡ put p s a m
put_twice p s a b m =
    let e : update (update m.word p (update (m.word p) s b)) p
          (update (update m.word p (update (m.word p) s b) p) s a)
        ≡ update m.word p (update (m.word p) s a) =
      fun_ext (λ x. fun_ext (λ y. ground arith)) in
    λ i. record m { word = e i }

put_same : (p s w : ℕ) (m : Machine) → m.word p s ≡ w → put p s w m ≡ m
put_same p s w m h =
    let e : update m.word p (update (m.word p) s w) ≡ m.word =
      fun_ext (λ x. fun_ext (λ y. ground (arith, h))) in
    λ i. record m { word = e i }

next_byte : (w i : ℕ) → i < 8 → w / 256 ^ i / 256 ≡ w / 256 ^ suc i
next_byte w zero h = omega arith
next_byte w (suc zero) h = omega arith
next_byte w (suc (suc zero)) h = omega arith
next_byte w (suc (suc (suc zero))) h = omega arith
next_byte w (suc (suc (suc (suc zero)))) h = omega arith
next_byte w (suc (suc (suc (suc (suc zero))))) h = omega arith
next_byte w (suc (suc (suc (suc (suc (suc zero)))))) h = omega arith
next_byte w (suc (suc (suc (suc (suc (suc (suc zero))))))) h = omega arith
next_byte w (suc (suc (suc (suc (suc (suc (suc (suc i)))))))) h = absurd (omega (arith, h))

-- The number in its page of the word at `va`.
abbrev slot : ℕ → ℕ
slot va = va % 4096 / 8

module _ (table va p o w : ℕ) (m : Machine) (aligned : va % 8 ≡ 0)
    (stack : IsStack m table va p 8) where
  -- One byte of the word.
  store_byte-put :
      (i : ℕ)
      → i < 8
      → store_byte table (va + i) (w / 256 ^ i % 256) (put p (slot va) (half_written o w i) m)
        ≡ some (tt, put p (slot va) (half_written o w (suc i)) m)
  unfolding store_byte
  store_byte-put i h =
      let s : (va + i) % 4096 / 8 ≡ va % 4096 / 8 = omega (arith, aligned, h) in
      let k : (va + i) % 8 ≡ i = omega (arith, aligned, h) in
      let n = put p (slot va) (half_written o w i) m in
      let page = stack i h n (λ b j ne. ground (arith, ne)) in
      let r : n.word p (slot va) ≡ half_written o w i = ground arith in
      rw (page, ◌>>=◌)
        (rw s (
          rw k (
            rw r (
              rw (set_byte-half_written o w i h) (
                ap (λ q. some (tt, q))
                  (put_twice p (slot va) (half_written o w (suc i)) (half_written o w i) m))))))

  -- From byte `i` on.
  store_bytes-put :
      (r i : ℕ)
      → i + r ≡ 8
      → store_bytes r table (va + i) (w / 256 ^ i) (put p (slot va) (half_written o w i) m)
        ≡ some (tt, put p (slot va) (half_written o w 8) m)
  unfolding store_bytes
  store_bytes-put zero i h =
      let e : i ≡ 8 = omega (arith, h) in
      ap (λ j. some (tt, put p (slot va) (half_written o w j) m)) e
  store_bytes-put (suc r) i h =
      let lt : i < 8 = omega (arith, h) in
      let next : va + i + 1 ≡ va + suc i = omega arith in
      rw (store_byte-put i lt, ◌>>=◌)
        (rw next (rw (next_byte w i lt) (store_bytes-put r (suc i) (omega (arith, h)))))

  store_bytes_lem :
      m.word p (slot va) ≡ o
      → o < 2 ^ 64
      → w < 2 ^ 64
      → store_bytes 8 table va w m ≡ some (tt, put p (slot va) w m)
  store_bytes_lem old lt lt' =
      let first : half_written o w 0 ≡ o = omega arith in
      let last : half_written o w 8 ≡ w = omega (arith, lt, lt') in
      let same : put p (slot va) (half_written o w 0) m ≡ m =
        rw first (put_same p (slot va) o m old) in
      let run : store_bytes 8 table (va + 0) (w / 256 ^ 0) (put p (slot va) (half_written o w 0) m)
          ≡ some (tt, put p (slot va) (half_written o w 8) m) =
        store_bytes-put 8 0 refl in
      let start : va + 0 ≡ va = omega arith in
      let whole : w / 256 ^ 0 ≡ w = omega arith in
      subst (λ z. store_bytes 8 table va w z ≡ some (tt, put p (slot va) w m)) same
        (subst
          (λ z.
            store_bytes 8 table va w (put p (slot va) (half_written o w 0) m)
            ≡ some (tt, put p (slot va) z m))
          last
          (subst
            (λ z.
              store_bytes 8 table va z (put p (slot va) (half_written o w 0) m)
              ≡ some (tt, put p (slot va) (half_written o w 8) m))
            whole
            (subst
              (λ z.
                store_bytes 8 table z (w / 256 ^ 0) (put p (slot va) (half_written o w 0) m)
                ≡ some (tt, put p (slot va) (half_written o w 8) m))
              start run)))

-- The words `ws` from word `s` of page `p` on.
unfoldable pub fill : List ℕ → ℕ → ℕ → Machine → Machine
fill [] p s m = m
fill (w ∷ ws) p s m = fill ws p (suc s) (put p s w m)

IsStack-next :
    (m : Machine) (table va p n s w : ℕ)
    → IsStack m table va p (8 + n)
    → IsStack (put p s w m) table (va + 8) p n
IsStack-next m table va p n s w stack j h q agree =
    let e : va + (8 + j) ≡ va + 8 + j = omega arith in
    subst (λ z. translate table z q ≡ some (p, q)) e
      (stack (8 + j) (omega (arith, h)) q (λ b i ne. agree b i ne ∙ ground (arith, ne)))

fill-suc :
    (ws : List ℕ) (va p : ℕ) (m : Machine)
    → va % 8 ≡ 0
    → va % 4096 + 8 * suc (length ws) ≤ 4096
    → fill ws p ((va + 8) % 4096 / 8) m ≡ fill ws p (suc (va % 4096 / 8)) m
unfolding fill
fill-suc [] va p m aligned room = refl
fill-suc (w ∷ ws) va p m aligned room =
    let e : (va + 8) % 4096 / 8 ≡ suc (va % 4096 / 8) = omega (arith, aligned, room) in
    ap (λ s. fill (w ∷ ws) p s m) e

store_words_cons :
    (w table va : ℕ) (ws : List ℕ) (m : Machine)
    → store_words (w ∷ ws) table va m
      ≡ (store_bytes 8 table va w >> store_words ws table (va + 8)) m
unfolding store_words
store_words_cons w table va ws m = refl

store_words_nil :
    (table va p : ℕ) (m : Machine) → store_words [] table va m ≡ some (tt, fill [] p (slot va) m)
unfolding store_words fill
store_words_nil table va p m = refl

pub fill_cons :
    (w : ℕ) (ws : List ℕ) (p s : ℕ) (m : Machine)
    → fill (w ∷ ws) p s m ≡ fill ws p (suc s) (put p s w m)
unfolding fill
fill_cons w ws p s m = refl

put_small :
    (p s w : ℕ) (m : Machine)
    → w < 2 ^ 64
    → ((i : ℕ) → m.word p i < 2 ^ 64)
    → (i : ℕ) → (put p s w m).word p i < 2 ^ 64
put_small p s w m h words i = ground (arith, h, words i)

-- A list of words, stored byte by byte.
pub store_words-fill :
    (ws : List ℕ) (table va p : ℕ) (m : Machine)
    → va % 8 ≡ 0
    → va % 4096 + 8 * length ws ≤ 4096
    → IsStack m table va p (8 * length ws)
    → ((i : ℕ) → m.word p i < 2 ^ 64)
    → All (λ w. w < 2 ^ 64) ws
    → store_words ws table va m ≡ some (tt, fill ws p (va % 4096 / 8) m)
store_words-fill [] table va p m aligned room stack words small = store_words_nil table va p m
store_words-fill (w ∷ ws) table va p m aligned room stack words small =
    let s = va % 4096 / 8 in
    let size : 8 * suc (length ws) ≡ 8 + 8 * length ws = omega arith in
    let stack' : IsStack m table va p (8 + 8 * length ws) =
      subst (IsStack m table va p) size stack in
    let one : IsStack m table va p 8 = λ j h. stack' j (omega (arith, h)) in
    let first = store_bytes_lem table va p (m.word p s) w m aligned one refl (words s) small.0 in
    let room' : (va + 8) % 4096 + 8 * length ws ≤ 4096 = omega (arith, room, aligned, size) in
    let rest =
      store_words-fill ws table (va + 8) p (put p s w m) (omega (arith, aligned)) room'
        (IsStack-next m table va p (8 * length ws) s w stack') (put_small p s w m small.0 words)
        small.1 in
    let next = fill-suc ws va p (put p s w m) aligned room in
    store_words_cons w table va ws m
    ∙ rw (first, ◌>>=◌) (rest ∙ ap (λ q. some (tt, q)) (next ∙ sym (fill_cons w ws p s m)))
