-- ===== src/Tracing/Stream/Delivery.antt =====
-- What reaches the sink from a stream of rust/tracing/src/event/stream.rs.
use micromegas.Prelude.{
  ℕ, ◌+◌, ◌%◌, ◌^◌, ◌<◌, ◌≡◌, refl, sym, ap, ◌∙◌, false, List, [], ◌∷◌, ◌++◌, ok, length,
  length-append, append_assoc, append-nil, All, All-append, arith, Bool-cases, inl, inr,
}
use micromegas.Transit.Queue.{QueueTypes, Queue, new, nb_objects, push_all, iter}
use micromegas.Transit.Queue.Laws.{Fits, encoding, iter-push_all, push_lem}
use micromegas.Tracing.Stream.{
  DualTime, FlushTimes, EventBlock, EventStream, close, set_full, replace_block, is_full, is_empty,
  new_block, new_stream, flush_buffer, record_event, Step, event, flush, mark_full, step, run,
}
use micromegas.Tracing.Stream.Blocks.{
  contents, contents-snoc, push_all-snoc, push_all-pos, IsNumbered, IsNumbered-snoc,
}

module _ (with_capacity : ℕ → ℕ) {A : Type 0} (d : QueueTypes A) (buffer_size : ℕ) where
  -- The events so far are those of the blocks that were sent and those in the current block.
  record IsDelivered (events : List A) (s : EventStream × List EventBlock) : Type 0 where
    before : List A
    current : List A
    split : before ++ current ≡ events
    delivered : contents d s.1 ≡ ok before
    numbered : IsNumbered 0 s.1 (length before)
    offset : s.0.current_block.event_offset ≡ length before
    pushed : push_all d current new ≡ ok s.0.current_block.events
    fits : All (Fits d) current

  -- The current block as it is read, with the number of its objects.
  current_lem :
      (events : List A) (s : EventStream × List EventBlock) (v : IsDelivered events s)
      → (iter d s.0.current_block.events ≡ ok v.current)
        × (nb_objects s.0.current_block.events ≡ length v.current)
  current_lem events s v =
      let (q, pushed, counted, read) = iter-push_all d v.current v.fits in
      let same : q ≡ s.0.current_block.events = cc in (rw same at read, rw same at counted)

  -- A stream with a new block is not full.
  replace_block-new_block :
      (now : DualTime) (stream : EventStream) (offset : ℕ)
      → is_full
          (replace_block
            (new_block with_capacity now buffer_size stream.process_id stream.stream_id offset)
            stream).0
        ≡ false
  unfolding is_full replace_block new_block
  replace_block-new_block now stream offset = ground arith

  flush-IsDelivered :
      (events : List A) (now : FlushTimes) (s : EventStream × List EventBlock)
      → length events < 2 ^ 64
      → IsDelivered events s
      → (s' : EventStream × List EventBlock) × (flush_buffer with_capacity now buffer_size s
          ≡ ok s')
        × IsDelivered events s'
  unfolding flush_buffer replace_block new_block push_all is_empty
  flush-IsDelivered events now (stream, sent) small v = elim (Bool-cases (is_empty stream)) [
    | inl empty ↦ ((stream, sent), rw empty, v)
    | inr full ↦
        let (read, counted) = current_lem events (stream, sent) v in
        let filled = push_all-pos d v.current stream.current_block.events v.pushed full in
        let old = close now.end stream.current_block in
        let next_offset =
          (stream.current_block.event_offset + nb_objects stream.current_block.events) % 2 ^ 64 in
        let block =
          new_block with_capacity now.begin buffer_size stream.process_id stream.stream_id
            next_offset in
        let sum : length v.before + length v.current ≡ length events =
          sym (length-append v.before v.current) ∙ ap length v.split in
        let counted_up : length (v.before ++ v.current)
            ≡ length v.before + nb_objects stream.current_block.events =
          omega (arith, length-append v.before v.current, counted) in
        (
          ((replace_block block stream).0, sent ++ old ∷ []),
          rw (full, replace_block-new_block now.begin stream next_offset),
          record {
            before = v.before ++ v.current;
            current = [];
            split = append-nil (v.before ++ v.current) ∙ v.split;
            delivered = contents-snoc d sent old v.before v.current v.delivered read;
            numbered = rw counted_up (
                IsNumbered-snoc 0 sent (length v.before) old v.numbered v.offset
                  (omega (arith, counted, filled)));
            offset = omega (arith, sum, counted_up, counted, v.offset, small);
            pushed = refl;
            fits = tt;
          },
        )
  ]

  event-IsDelivered :
      (events : List A) (now : FlushTimes) (value : A) (s : EventStream × List EventBlock)
      → length events + 1 < 2 ^ 64
      → Fits d value
      → IsDelivered events s
      → (s' : EventStream × List EventBlock) × (record_event with_capacity d now buffer_size value s
          ≡ ok s')
        × IsDelivered (events ++ value ∷ []) s'
  unfolding record_event
  event-IsDelivered events now value (stream, sent) small fit v =
      let q = stream.current_block.events in
      let pushed = push_lem d value q fit in
      let q' : Queue = record {
        buffer = q.buffer ++ encoding d value;
        obj_counter = q.obj_counter + 1;
      } in
      let stream' : EventStream = record stream {
        current_block = record stream.current_block { events = q' };
      } in
      let v' : IsDelivered (events ++ value ∷ []) (stream', sent) = record {
        before = v.before;
        current = v.current ++ value ∷ [];
        split =
            sym (append_assoc v.before v.current (value ∷ [])) ∙ ap (λ l. l ++ value ∷ []) v.split;
        delivered = v.delivered;
        numbered = v.numbered;
        offset = v.offset;
        pushed = push_all-snoc d v.current value new q q' v.pushed pushed;
        fits = All-append (Fits d) v.current (value ∷ []) v.fits (fit, tt);
      } in
      let flushed =
        flush-IsDelivered (events ++ value ∷ []) now (stream', sent)
          (omega (arith, length-append events (value ∷ []), small)) v' in
      elim (Bool-cases (is_full stream')) [
        | inl full ↦ let (s', ran, w) = flushed in (s', rw (pushed, full, ran), w)
        | inr space ↦ ((stream', sent), rw (pushed, space), v')
      ]

-- The events of some steps, in their order, and the contract of each.
unfoldable pub events_of : {A : Type 0} → List (Step A) → List A
events_of [] = []
events_of (event now v ∷ ts) = v ∷ events_of ts
events_of (flush now ∷ ts) = events_of ts
events_of (mark_full ∷ ts) = events_of ts

module _ (with_capacity : ℕ → ℕ) {A : Type 0} (d : QueueTypes A) (buffer_size : ℕ) where
  run-IsDelivered :
      (ts : List (Step A)) (events : List A) (s : EventStream × List EventBlock)
      → length (events ++ events_of ts) < 2 ^ 64
      → All (Fits d) (events_of ts)
      → IsDelivered with_capacity d buffer_size events s
      → (s' : EventStream × List EventBlock) × (run with_capacity d buffer_size ts s ≡ ok s')
        × IsDelivered with_capacity d buffer_size (events ++ events_of ts) s'
  unfolding run step events_of
  run-IsDelivered [] events s small fits v = (s, refl, rw append-nil v)
  run-IsDelivered (event now value ∷ ts) events (stream, sent) small (fit, fits) v =
      let (s1, ran, v1) =
        event-IsDelivered with_capacity d buffer_size events now value (stream, sent)
          (omega (arith, small, length-append events (value ∷ events_of ts))) fit v in
      let (s2, rest, v2) =
        run-IsDelivered ts (events ++ value ∷ []) s1
          (rw (append_assoc events (value ∷ []) (events_of ts)) small) fits v1 in
      (s2, rw (ran, rest), rw (append_assoc events (value ∷ []) (events_of ts)) at v2)
  run-IsDelivered (flush now ∷ ts) events (stream, sent) small fits v =
      let (s1, ran, v1) =
        flush-IsDelivered with_capacity d buffer_size events now (stream, sent)
          (omega (arith, small, length-append events (events_of ts))) v in
      let (s2, rest, v2) = run-IsDelivered ts events s1 small fits v1 in (s2, rw (ran, rest), v2)
  run-IsDelivered (mark_full ∷ ts) events (stream, sent) small fits v =
      run-IsDelivered ts events (set_full stream, sent) small fits
        (record {
          before = v.before;
          current = v.current;
          split = v.split;
          delivered = v.delivered;
          numbered = v.numbered;
          offset = v.offset;
          pushed = v.pushed;
          fits = v.fits;
        })

  -- Whatever mix of events, flushes and marks a new stream sees, nothing fails, the assertion behind
  -- a flush included, as long as the events fit and are fewer than 2^64. The blocks that were sent,
  -- with the current block behind them, hold exactly the events that were recorded, in their order;
  -- no block that was sent is empty, and the offset of each block is the number of events before it.
  pub run-new_stream :
      (now : DualTime) (process_id stream_id : ℕ) (ts : List (Step A))
      → length (events_of ts) < 2 ^ 64
      → All (Fits d) (events_of ts)
      → (stream : EventStream) × (sent : List EventBlock) × (before : List A) × (current : List A)
        × (run with_capacity d buffer_size ts
              (new_stream with_capacity now buffer_size process_id stream_id, [])
            ≡ ok (stream, sent))
        × (contents d sent ≡ ok before)
        × (iter d stream.current_block.events ≡ ok current)
        × (before ++ current ≡ events_of ts)
        × IsNumbered 0 sent (length before)
        × (stream.current_block.event_offset ≡ length before)
  unfolding new_stream new_block push_all contents
  run-new_stream now process_id stream_id ts small fits =
      let ((stream, sent), ran, v) =
        run-IsDelivered ts [] (new_stream with_capacity now buffer_size process_id stream_id, [])
          small fits
          (record {
            before = [];
            current = [];
            split = refl;
            delivered = refl;
            numbered = refl;
            offset = refl;
            pushed = refl;
            fits = tt;
          }) in
      (
        stream,
        sent,
        v.before,
        v.current,
        ran,
        v.delivered,
        (current_lem with_capacity d buffer_size (events_of ts) (stream, sent) v).0,
        v.split,
        v.numbered,
        v.offset,
      )
