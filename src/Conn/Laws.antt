-- ===== src/Conn/Laws.antt =====
-- The buffer operations of a connection, src/tcpServer.h, on the bytes that the buffers hold.
use m_rpc.Prelude.{
  ℕ, ◌-◌, ◌%◌, ◌^◌, ◌≡◌, refl, sym, ap, ◌∙◌, true, Option, none, some, List, [], ◌∷◌, ◌++◌, take,
  drop, length-drop, append-nil, zero, suc, length, ok, Returns,
}
use m_rpc.Endian.{Bytes}
use m_rpc.Platform.{EvBuffer}
use m_rpc.Conn.{
  Conn, get_read_buffer_len, get_write_buffer_len, read_buffer, copy_buffer,
  move_buffer_read_to_write,
}

take-drop {ℓ} : {A : Type ℓ} (n : ℕ) (xs : List A) → take n xs ++ drop n xs ≡ xs
take-drop zero xs = refl
take-drop (suc n) [] = refl
take-drop (suc n) (x ∷ xs) = ap (λ l. x ∷ l) (take-drop n xs)

module _ (ev : EvBuffer) where
  open ev use {Buf, contents, empty, add_buffer}

  -- The bytes in a buffer that may be NULL.
  abbrev pub bytes_of : Option Buf → Bytes
  bytes_of none = []
  bytes_of (some b) = contents b

  -- The calls that can fail do not.
  pub record Moves : Type 0 where
    pub add_buffer_moves : (d s : Buf) → (add_buffer d s).0 ≡ true

  -- `moveBufferReadToWrite` on a connection with both buffers, where evbuffer_add_buffer succeeds:
  -- the bytes read go behind those to be written, in order, and none are left to be read; with a
  -- second call nothing more changes.
  pub move_buffer_lem :
      (c : Conn ev) (r o : Buf)
      → Moves
      → c.read_buf ≡ some r
      → c.write_buf ≡ some o
      → Returns
          (λ c'.
            (bytes_of c'.write_buf ≡ contents o ++ contents r)
            × (bytes_of c'.read_buf ≡ [])
            × Returns
                (λ d. (bytes_of d.write_buf ≡ bytes_of c'.write_buf) × (bytes_of d.read_buf ≡ []))
                (move_buffer_read_to_write ev c'))
          (move_buffer_read_to_write ev c)
  unfolding move_buffer_read_to_write
  move_buffer_lem c r o ok_moves er eo =
      let first = ev.contents-add_buffer o r (ok_moves.add_buffer_moves o r) in
      let o' = (add_buffer o r).1 in
      let r' = (add_buffer o r).2 in
      let second = ev.contents-add_buffer o' r' (ok_moves.add_buffer_moves o' r') in
      rw (er, eo, move_buffer_read_to_write)
        (
          first.0,
          first.1,
          (second.0 ∙ ap (λ l. contents o' ++ l) first.1 ∙ append-nil (contents o'), second.1),
        )

  -- `copyBuffer` gives the bytes that `readBuffer` then takes: the front of the buffer, as much as is
  -- asked for or is there. Together with what stays they are what was there, the length is that
  -- of what stays, and the buffer to be written is untouched.
  pub read_buffer-copy_buffer :
      (c : Conn ev) (r : Buf) (n : ℕ)
      → c.read_buf ≡ some r
      → Returns
          (λ (bytes, c').
            (copy_buffer ev n c ≡ ok bytes)
            × (bytes ++ bytes_of c'.read_buf ≡ contents r)
            × (get_read_buffer_len ev c' ≡ ok ((length (contents r) - n) % 2 ^ 32))
            × (get_write_buffer_len ev c' ≡ get_write_buffer_len ev c))
          (read_buffer ev n c)
  unfolding read_buffer copy_buffer get_read_buffer_len get_write_buffer_len
  read_buffer-copy_buffer c r n er =
      rw (er, read_buffer, copy_buffer)
        (
          ap ok (ev.copyout_bytes r n ∙ sym (ev.remove_bytes r n)),
          rw (ev.remove_bytes r n, ev.contents-remove r n) (take-drop n (contents r)),
          rw
              (
                ev.get_length_lem (ev.remove r n).1,
                ev.contents-remove r n,
                length-drop n (contents r),
              )
              refl,
          refl,
        )
