-- ===== src/Client/Writes.antt =====
-- handle_writable keeps the stream of a client.
use rtmp_abr_transcoder.Base.{
  ℕ, ◌≡◌, refl, List, [], Option, none, some, ltb, ◌==◌, length, Bool-cases, inl, inr,
}
use rtmp_abr_transcoder.Net.Socket.{write}
use rtmp_abr_transcoder.Client.{RtmpClient, take_outgoing}
use rtmp_abr_transcoder.Client.Events.{Callbacks, write_buffered, handle_writable}
use rtmp_abr_transcoder.Client.Stream.{
  outgoing, IsSending, Adds, Adds-Adds, same_session, take_outgoing-Adds, taken, taken_all,
  none_left, accepted,
}

module _ {W : Type 0} (callbacks : Callbacks W) where
  -- What handle_writable makes of a client whose write does not fail.
  pub record Writes (n : ℕ) (bytes : List ℕ) (c : RtmpClient) (w : W) (r : Option (RtmpClient × W))
      : Type 0 where
    pub after : RtmpClient
    pub defined : r ≡ some (after, w)
    pub adds : Adds n bytes c after

  write_buffered-Writes :
      (n : ℕ) (o : Option ℕ) (c : RtmpClient) (w : W)
      → IsSending n c
      → Writes n [] c w (write_buffered callbacks (accepted o) (c, w))
  unfolding write_buffered write
  write_buffered-Writes n (some k) c w i = elim (Bool-cases (ltb k (length c.write_buffer))) [
    | inl e ↦ rw e (record {
      after = _;
      defined = refl;
      adds =
          same_session n c _ i refl (taken c.socket.written c.write_buffer (outgoing c.session) k);
    })
    | inr e ↦ rw e (record {
      after = _;
      defined = refl;
      adds =
          same_session n c _ i refl
            (taken_all c.socket.written c.write_buffer (outgoing c.session) k e);
    })
  ]
  write_buffered-Writes n none c w i = elim (Bool-cases (ltb 0 (length c.write_buffer))) [
    | inl e ↦ rw e (record { after = _; defined = refl; adds = same_session n c _ i refl refl })
    | inr e ↦ rw e (record {
      after = _;
      defined = refl;
      adds =
          same_session n c _ i refl
            (none_left c.socket.written c.write_buffer (outgoing c.session) e);
    })
  ]

  pub handle_writable-Writes :
      (n : ℕ) (o : Option ℕ) (c : RtmpClient) (w : W)
      → IsSending n c
      → Writes n [] c w (handle_writable callbacks (accepted o) (c, w))
  unfolding handle_writable
  handle_writable-Writes n o c w i =
      let t = take_outgoing-Adds n c i in
      elim (Bool-cases (length (take_outgoing c).write_buffer == 0)) [
        | inl f ↦ rw f (record {
          after = _;
          defined = refl;
          adds = record {
            contents = t.contents;
            sending = record {
              session = t.sending.session;
              present = t.sending.present;
              ready = t.sending.ready;
              size = t.sending.size;
            };
          };
        })
        | inr f ↦ rw f (
            let r = write_buffered-Writes n o (take_outgoing c) w t.sending in
            record {
              after = r.after;
              defined = r.defined;
              adds = Adds-Adds n [] [] c (take_outgoing c) r.after t r.adds;
            })
      ]
