-- ===== src/Capi/Tables.antt =====
-- What each way to change the tables of src/capi.cpp keeps.
use mathlib.Core.Option.{some-ne-none}
use websocket_client.Common.{
  ℕ, ◌+◌, ◌^◌, ◌<◌, ◌≤◌, refl, sym, ap, ◌∙◌, ◌≡◌, ◌≢◌, arith, none, some, List, [], ◌∷◌, ◌++◌,
  Option-cases, inl, inr, ◌↔◌,
}
use websocket_client.Common.Maps.{lookup, insert, lookup-insert, lookup-erase}
use websocket_client.Capi.Int.{ℤ, pos, to_int-small}
use websocket_client.Capi.{
  Methods, Table, Body, wrap, on_socket, drop_socket, erase_all, emplace_at, emplace_web_socket,
}

module _ {S : Type 0} where
  -- Every object has a number that was given out, and an entry for the pointer of the user.
  pub record IsSound (t : Table S) : Type 0 where
    pub bounded : (id : ℕ) → lookup id t.web_sockets ≢ none → id ≤ t.last_id
    pub pointed : (id : ℕ) → lookup id t.web_sockets ≢ none → lookup id t.user_pointers ≢ none

  -- The number was given out, and its object is gone.
  pub record IsGone (id : ℕ) (t : Table S) : Type 0 where
    pub unknown : lookup id t.web_sockets ≡ none
    pub given_out : id ≤ t.last_id

  -- Another value for a key that is there makes no key known or unknown.
  lookup-insert-none :
      (id j : ℕ) (s s' : S) (sockets : List (ℕ × S))
      → lookup id sockets ≡ some s
      → (lookup j (insert id s' sockets) ≡ none) ↔ (lookup j sockets ≡ none)
  lookup-insert-none id j s s' sockets found = ground (arith, found, lookup-insert id j s' sockets)

module _ {S : Type 0} (m : Methods S) where
  pub on_socket-IsSound :
      (id : ℕ) (body : S → Body S) (t : Table S) → IsSound t → IsSound (on_socket m id body t).1
  unfolding on_socket
  on_socket-IsSound id body t s = elim (Option-cases (lookup id t.web_sockets)) [
    | inl e ↦ simp (on_socket, e) s
    | inr (x, e) ↦
        simp (on_socket, e)
          (record {
            bounded = λ j h.
                s.bounded j
                  (λ u. h ((lookup-insert-none id j x (wrap (body x)).1 t.web_sockets e).1 u));
            pointed = λ j h.
                s.pointed j
                  (λ u. h ((lookup-insert-none id j x (wrap (body x)).1 t.web_sockets e).1 u));
          })
  ]

  pub on_socket-IsGone :
      (gone id : ℕ) (body : S → Body S) (t : Table S)
      → IsGone gone t
      → IsGone gone (on_socket m id body t).1
  unfolding on_socket
  on_socket-IsGone gone id body t g = elim (Option-cases (lookup id t.web_sockets)) [
    | inl e ↦ simp (on_socket, e) g
    | inr (x, e) ↦
        simp (on_socket, e)
          (record {
            unknown = (lookup-insert-none id gone x (wrap (body x)).1 t.web_sockets e).1 g.unknown;
            given_out = g.given_out;
          })
  ]

  pub drop_socket-IsSound :
      (id : ℕ) (last : S → S) (t : Table S) → IsSound t → IsSound (drop_socket m id last t).1
  unfolding drop_socket
  drop_socket-IsSound id last t s = elim (Option-cases (lookup id t.web_sockets)) [
    | inl e ↦ simp (drop_socket, e) s
    | inr (x, e) ↦
        simp (drop_socket, e)
          (record {
            bounded = λ j h. ground (arith, lookup-erase id j t.web_sockets, s.bounded j, h);
            pointed = λ j h. ground (
              arith,
              lookup-erase id j t.web_sockets,
              lookup-erase id j t.user_pointers,
              s.pointed j,
              h,
            );
          })
  ]

  pub drop_socket-IsGone :
      (gone id : ℕ) (last : S → S) (t : Table S)
      → IsGone gone t
      → IsGone gone (drop_socket m id last t).1
  unfolding drop_socket
  drop_socket-IsGone gone id last t g = elim (Option-cases (lookup id t.web_sockets)) [
    | inl e ↦ simp (drop_socket, e) g
    | inr (x, e) ↦
        simp (drop_socket, e)
          (record {
            unknown = ground (arith, lookup-erase id gone t.web_sockets, g.unknown);
            given_out = g.given_out;
          })
  ]

  -- A handle that was dropped is gone.
  pub dropped-IsGone :
      (id : ℕ) (last : S → S) (t : Table S)
      → IsSound t
      → lookup id t.web_sockets ≢ none
      → IsGone id (drop_socket m id last t).1
  unfolding drop_socket
  dropped-IsGone id last t s known = elim (Option-cases (lookup id t.web_sockets)) [
    | inl e ↦ absurd (known e)
    | inr (x, e) ↦
        simp (drop_socket, e)
          (record {
            unknown = ground (arith, lookup-erase id id t.web_sockets);
            given_out = s.bounded id known;
          })
  ]

  -- While the counter has room, the next number is one above the last one.
  pub emplace_web_socket-next :
      (x : S) (t : Table S)
      → t.last_id + 1 < 2 ^ 31
      → emplace_web_socket m x t ≡ emplace_at m (t.last_id + 1) x t
  unfolding emplace_web_socket
  emplace_web_socket-next x t room = ap (λ id. emplace_at m id x t) (omega (arith, room))

  -- The number and the objects then, where no object has the next number.
  pub emplace_web_socket-new :
      (x : S) (t : Table S)
      → t.last_id + 1 < 2 ^ 31
      → lookup (t.last_id + 1) t.web_sockets ≡ none
      → let r = emplace_web_socket m x t in
        (r.0 ≡ pos (t.last_id + 1)) × (r.1.web_sockets ≡ insert (t.last_id + 1) x t.web_sockets)
  unfolding emplace_at
  emplace_web_socket-new x t room new =
      let next = emplace_web_socket-next x t room in
      (
        ap (λ (r : ℤ × Table S). r.0) next ∙ to_int-small (t.last_id + 1) room,
        ap (λ (r : ℤ × Table S). r.1.web_sockets) next ∙ rw (emplace_at, new) refl,
      )

  pub next-unknown : (t : Table S) → IsSound t → lookup (t.last_id + 1) t.web_sockets ≡ none
  next-unknown t s = elim (Option-cases (lookup (t.last_id + 1) t.web_sockets)) [
    | inl e ↦ e
    | inr (x, e) ↦
        let above = s.bounded (t.last_id + 1) (λ u. some-ne-none x (sym e ∙ u)) in
        absurd (omega (arith, above))
  ]

  pub emplace_web_socket-IsSound :
      (x : S) (t : Table S)
      → t.last_id + 1 < 2 ^ 31
      → IsSound t
      → IsSound (emplace_web_socket m x t).1
  unfolding emplace_at
  emplace_web_socket-IsSound x t room s =
      let id = t.last_id + 1 in
      let next = emplace_web_socket-next x t room in
      let new = next-unknown t s in
      let socket = λ (j : ℕ). lookup-insert id j x t.web_sockets in
      elim (Option-cases (lookup id t.user_pointers)) [
        | inl e ↦
            simp (next, emplace_at, new, e)
              (record {
                bounded = λ j h. ground (arith, socket j, s.bounded j, h);
                pointed = λ j h.
                    ground (arith, socket j, lookup-insert id j 0 t.user_pointers, s.pointed j, h);
              })
        | inr (ptr, e) ↦
            simp (next, emplace_at, new, e)
              (record {
                bounded = λ j h. ground (arith, socket j, s.bounded j, h);
                pointed = λ j h. ground (arith, socket j, s.pointed j, h, e);
              })
      ]

  pub emplace_web_socket-IsGone :
      (gone : ℕ) (x : S) (t : Table S)
      → t.last_id + 1 < 2 ^ 31
      → IsGone gone t
      → IsGone gone (emplace_web_socket m x t).1
  unfolding emplace_at
  emplace_web_socket-IsGone gone x t room g =
      let next = emplace_web_socket-next x t room in
      elim (Option-cases (lookup (t.last_id + 1) t.web_sockets)) [
        | inl e ↦
            simp (next, emplace_at, e)
              (record {
                unknown = ground (
                  arith,
                  lookup-insert (t.last_id + 1) gone x t.web_sockets,
                  g.unknown,
                  g.given_out,
                );
                given_out = omega (arith, g.given_out);
              })
        | inr (y, e) ↦
            simp (next, emplace_at, e)
              (record { unknown = g.unknown; given_out = omega (arith, g.given_out) })
      ]

  pub on_socket-last_id :
      (id : ℕ) (body : S → Body S) (t : Table S) → (on_socket m id body t).1.last_id ≡ t.last_id
  unfolding on_socket
  on_socket-last_id id body t = elim (Option-cases (lookup id t.web_sockets)) [
    | inl e ↦ rw (on_socket, e) refl
    | inr (x, e) ↦ rw (on_socket, e) refl
  ]

  pub drop_socket-last_id :
      (id : ℕ) (last : S → S) (t : Table S) → (drop_socket m id last t).1.last_id ≡ t.last_id
  unfolding drop_socket
  drop_socket-last_id id last t = elim (Option-cases (lookup id t.web_sockets)) [
    | inl e ↦ rw (drop_socket, e) refl
    | inr (x, e) ↦ rw (drop_socket, e) refl
  ]

  -- The counter goes up by one at most.
  pub emplace_web_socket-last_id :
      (x : S) (t : Table S)
      → t.last_id + 1 < 2 ^ 31
      → (emplace_web_socket m x t).1.last_id ≡ t.last_id + 1
  unfolding emplace_at
  emplace_web_socket-last_id x t room =
      ap (λ (r : ℤ × Table S). r.1.last_id) (emplace_web_socket-next x t room)

-- What every way to change the table keeps, while the counter has room.
pub record IsKept {S : Type 0} (m : Methods S) (P : Table S → Type 0) : Type 0 where
  pub by_socket : (id : ℕ) (body : S → Body S) (t : Table S) → P t → P (on_socket m id body t).1
  pub by_drop : (id : ℕ) (last : S → S) (t : Table S) → P t → P (drop_socket m id last t).1
  pub by_emplace :
      (x : S) (t : Table S) → t.last_id + 1 < 2 ^ 31 → P t → P (emplace_web_socket m x t).1
  pub by_release : (x : S) (t : Table S) → P t → P (record t { released = t.released ++ (x ∷ []) })
  pub by_erase : (t : Table S) → P t → P (erase_all m t).1
  pub by_pointer :
      (id ptr : ℕ) (t : Table S)
      → P t
      → P (record t { user_pointers = insert id ptr t.user_pointers })
