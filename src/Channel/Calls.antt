-- ===== src/Channel/Calls.antt =====
-- The calling side of src/rpcChannel.cpp: CallMethod, and responses in onRpcMessage.
use m_rpc.Prelude.{
  ℕ, ◌+◌, ◌%◌, ◌^◌, ◌≤◌, ◌<◌, ◌≡◌, ◌≢◌, refl, true, ◌||◌, none, some, List, [], ◌∷◌, ◌++◌, ◌==◌,
  ==_refl, ne→==_false, lt→ltb, if◌then◌else◌, ok, Returns, arith,
}
use m_rpc.Endian.{Bytes}
use m_rpc.Message.{RpcMessage, get_id, get_response, has_response, has_error}
use m_rpc.Channel.{
  ServiceClass, OutstandingCall, find, erase, assign, Channel, parsed, ran, deleted,
  request_message, call_method, finish_call, on_response,
}

module _ {V : Type 0} where
  pub find-erase_self : (k : ℕ) (m : List (ℕ × V)) → find k (erase k m) ≡ none
  unfolding find erase
  find-erase_self k [] = refl
  find-erase_self k ((j, v) ∷ m) = ground (arith, find-erase_self k m)

  pub find-erase_ne : (j k : ℕ) (m : List (ℕ × V)) → j ≢ k → find j (erase k m) ≡ find j m
  unfolding find erase
  find-erase_ne j k [] ne = refl
  find-erase_ne j k ((i, v) ∷ m) ne = ground (arith, find-erase_ne j k m)

  pub find-assign_self : (k : ℕ) (v : V) (m : List (ℕ × V)) → find k (assign k v m) ≡ some v
  unfolding find assign
  find-assign_self k v m = rw (==_refl k)

  pub find-assign_ne :
      (j k : ℕ) (v : V) (m : List (ℕ × V)) → j ≢ k → find j (assign k v m) ≡ find j m
  unfolding find assign
  find-assign_ne j k v m ne = rw (ne→==_false j k ne) (find-erase_ne j k m ne)

  -- Every key is at most `n`.
  abbrev pub Below : ℕ → List (ℕ × V) → Type 0
  Below n [] = Unit {0}
  Below n ((j, v) ∷ m) = (j ≤ n) × Below n m

  pub Below-mono : (n k : ℕ) (m : List (ℕ × V)) → n ≤ k → Below n m → Below k m
  Below-mono n k [] h b = tt
  Below-mono n k (e ∷ m) h (le, b) = (omega arith, Below-mono n k m h b)

  pub Below-erase : (n k : ℕ) (m : List (ℕ × V)) → Below n m → Below n (erase k m)
  unfolding erase
  Below-erase n k [] b = tt
  Below-erase n k ((j, v) ∷ m) (le, b) = ground (arith, Below-erase n k m b)

  pub find_above : (n k : ℕ) (m : List (ℕ × V)) → n < k → Below n m → find k m ≡ none
  unfolding find
  find_above n k [] h b = refl
  find_above n k ((j, v) ∷ m) h (le, b) = ground (arith, find_above n k m h b)

module _ (sc : ServiceClass) where
  -- Identifiers that are waited for were given out, and an `int` can count on.
  pub record Counting (ch : Channel sc) : Type 0 where
    pub below : Below ch.last_id ch.outstandings
    pub positive : ch.last_id < 2 ^ 31

  -- While the counter stays below 2 ^ 31 - 1, `CallMethod` takes an identifier that is not 0 and
  -- for which no call is outstanding, records the call under it and no other change, and sends on
  -- the channel's connection one REQUEST with that identifier, the names and the request's bytes.
  pub call_method_lem :
      (service method bytes : Bytes) (out : OutstandingCall) (ch : Channel sc)
      → Counting ch
      → ch.last_id + 1 < 2 ^ 31
      → (find (ch.last_id + 1) ch.outstandings ≡ none)
        × (find (ch.last_id + 1) (call_method sc service method bytes out ch).outstandings
            ≡ some out)
        × ((j : ℕ)
            → j ≢ ch.last_id + 1
            → find j (call_method sc service method bytes out ch).outstandings
              ≡ find j ch.outstandings)
        × ((call_method sc service method bytes out ch).sent
            ≡ ch.sent ++ (ch.conn, request_message sc (ch.last_id + 1) service method bytes) ∷ [])
        × Counting (call_method sc service method bytes out ch)
  unfolding call_method
  call_method_lem service method bytes out ch inv fits =
      let next : (ch.last_id + 1) % 2 ^ 32 ≡ ch.last_id + 1 = omega arith in
      rw (next, lt→ltb (ch.last_id + 1) (2 ^ 31) fits)
        (
          find_above ch.last_id (ch.last_id + 1) ch.outstandings (omega arith) inv.below,
          find-assign_self (ch.last_id + 1) out ch.outstandings,
          λ j ne. find-assign_ne j (ch.last_id + 1) out ch.outstandings ne,
          refl,
          record {
            below =
                unfold assign in
                (
                  omega arith,
                  Below-mono ch.last_id (ch.last_id + 1) _ (omega arith)
                      (Below-erase ch.last_id (ch.last_id + 1) ch.outstandings inv.below),
                );
            positive = fits;
          },
        )

  pub on_response-found :
      (m : RpcMessage) (out : OutstandingCall) (ch : Channel sc)
      → (has_response m || has_error m) ≡ true
      → find (get_id m) ch.outstandings ≡ some out
      → on_response sc m ch
        ≡ ok (finish_call sc m out (record ch { outstandings = erase (get_id m) ch.outstandings }))
  unfolding on_response
  on_response-found m out ch answered found = rw (answered, found)

  -- A response that no call waits for changes nothing.
  pub on_response-missing :
      (m : RpcMessage) (ch : Channel sc)
      → (has_response m || has_error m) ≡ true
      → find (get_id m) ch.outstandings ≡ none
      → on_response sc m ch ≡ ok ch
  unfolding on_response finish_call
  on_response-missing m ch answered missing = rw (answered, missing)

  -- The channel after a call with a response object has been finished.
  finished : RpcMessage → OutstandingCall → Channel sc → Channel sc
  finished m out ch = record ch {
    effects =
        ch.effects
        ++ ((if has_response m then parsed out.response (get_response m) ∷ [] else [])
            ++ ((if out.done == 0 then [] else ran out.done ∷ []) ++ deleted out.response ∷ []));
  }

  finish_call-finished :
      (m : RpcMessage) (out : OutstandingCall) (ch : Channel sc)
      → out.response ≢ 0
      → finish_call sc m out ch ≡ finished m out ch
  unfolding finish_call finished
  finish_call-finished m out ch there = rw (ne→==_false out.response 0 there)

  -- A response to an outstanding call whose response object is not NULL: its bytes, if it has any,
  -- are parsed into that object, the closure is run if there is one, the object is deleted, and
  -- the call is no longer outstanding. The same message once more has no effect at all.
  pub on_response_once :
      (m : RpcMessage) (out : OutstandingCall) (ch : Channel sc)
      → (has_response m || has_error m) ≡ true
      → find (get_id m) ch.outstandings ≡ some out
      → out.response ≢ 0
      → Returns
          (λ ch'.
            (find (get_id m) ch'.outstandings ≡ none)
            × ((j : ℕ) → j ≢ get_id m → find j ch'.outstandings ≡ find j ch.outstandings)
            × (ch'.effects
                ≡ ch.effects
                  ++ ((if has_response m then parsed out.response (get_response m) ∷ [] else [])
                      ++ ((if out.done == 0 then [] else ran out.done ∷ [])
                          ++ deleted out.response ∷ [])))
            × (ch'.sent ≡ ch.sent)
            × (on_response sc m ch' ≡ ok ch'))
          (on_response sc m ch)
  unfolding finished
  on_response_once m out ch answered found there =
      let gone : find (get_id m) (erase (get_id m) ch.outstandings) ≡ none =
        find-erase_self (get_id m) ch.outstandings in
      rw
        (
          on_response-found m out ch answered found,
          finish_call-finished m out (record ch { outstandings = erase (get_id m) ch.outstandings })
              there,
        )
        (
          gone,
          λ j ne. find-erase_ne j (get_id m) ch.outstandings ne,
          refl,
          refl,
          on_response-missing m _ answered gone,
        )
