-- ===== src/Emu/Buffer.antt =====
-- The one message buffer of command.c, which libspdm acquires for sending and for receiving. A
-- function answers nothing where an assertion fails.
use spdm_emu.Prelude.{
  ℕ, Bool, true, false, List, length, replicate, Option, none, some, Status, success, if◌then◌else◌,
  ◌&&◌,
}

-- `m_send_receive_buffer_acquired` and `m_send_receive_buffer`
pub record MessageBuffer : Type 0 where
  pub send_receive_buffer_acquired : Bool
  pub send_receive_buffer : List ℕ

unfoldable pub spdm_device_acquire_sender_buffer : MessageBuffer → Option (MessageBuffer × Status)
spdm_device_acquire_sender_buffer b =
    if b.send_receive_buffer_acquired
    then none
    else some (
      record {
        send_receive_buffer_acquired = true;
        send_receive_buffer = replicate (length b.send_receive_buffer) 0;
      },
      success,
    )

-- `is_buffer` says that msg_buf_ptr points to the buffer.
unfoldable pub spdm_device_release_sender_buffer : MessageBuffer → Bool → Option MessageBuffer
spdm_device_release_sender_buffer b is_buffer =
    if b.send_receive_buffer_acquired && is_buffer
    then some (record b { send_receive_buffer_acquired = false })
    else none

unfoldable pub spdm_device_acquire_receiver_buffer : MessageBuffer → Option (MessageBuffer × Status)
spdm_device_acquire_receiver_buffer b =
    if b.send_receive_buffer_acquired
    then none
    else some (
      record {
        send_receive_buffer_acquired = true;
        send_receive_buffer = replicate (length b.send_receive_buffer) 0;
      },
      success,
    )

unfoldable pub spdm_device_release_receiver_buffer : MessageBuffer → Bool → Option MessageBuffer
spdm_device_release_receiver_buffer b is_buffer =
    if b.send_receive_buffer_acquired && is_buffer
    then some (record b { send_receive_buffer_acquired = false })
    else none
