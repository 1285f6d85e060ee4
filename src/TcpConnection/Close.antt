-- ===== src/TcpConnection/Close.antt =====
-- TcpConnection.cc: reading, closing, and what the user is told.
use vortex_net.Base.{
  ℕ, ◌+◌, ◌≤◌, ◌<◌, ◌≡◌, refl, true, false, List, [], ◌∷◌, ◌++◌, some, length, lt→ltb,
}
use vortex_net.Buffer.{Buffer, writeable_bytes, got, extrabuf_size}
use vortex_net.Buffer.Inv.{IsValid, max_size, content}
use vortex_net.Buffer.ReadFd.{read_fd_got}
use vortex_net.TcpConnection.{
  TcpConnection, disconnected, is_open, handle_read, handle_close, force_close, connect_destroyed,
  connection_callback, message_callback, close_callback, force_close_in_loop,
}

-- `handleRead` of bytes that arrived hands the user an input buffer with exactly those bytes added at
-- its end, and touches nothing else; when the peer has closed, with no bytes, the connection is closed.
pub handle_read_lem :
    (c : TcpConnection) (bytes : List ℕ)
    → IsValid c.input_buffer
    → length bytes ≤ writeable_bytes c.input_buffer + extrabuf_size
    → length c.input_buffer.buffer + length bytes ≤ max_size
    → (b : Buffer) × IsValid b
      × (content b ≡ content c.input_buffer ++ bytes)
      × (0 < length bytes
          → handle_read c (got bytes)
            ≡ some (record c { input_buffer = b; calls = c.calls ++ (message_callback ∷ []) }))
      × (length bytes ≡ 0
          → handle_read c (got bytes) ≡ some (handle_close (record c { input_buffer = b })))
unfolding handle_read
handle_read_lem c bytes v room fits =
    let (b, e, ok, held) = read_fd_got {b = c.input_buffer} bytes v room fits in
    (
      b,
      ok,
      held,
      (λ h. rw (e, handle_read, lt→ltb 0 (length bytes) h)),
      (λ h. rw (e, handle_read, h)),
    )

-- A connection closed by force in its loop's thread is told to the user and to its owner once: later
-- forced closes and the owner's `connectDestroyed` call no one.
pub closed_once :
    (c : TcpConnection)
    → is_open c.state ≡ true
    → let d = force_close true c in
      (d.calls ≡ c.calls ++ (connection_callback disconnected ∷ close_callback ∷ []))
      × (d.state ≡ disconnected)
      × ((force_close true d).calls ≡ d.calls)
      × ((connect_destroyed d).calls ≡ d.calls)
      × ((connect_destroyed d).registered ≡ false)
unfolding force_close force_close_in_loop handle_close connect_destroyed
closed_once c h = rw h (refl, refl, refl, refl, refl)
