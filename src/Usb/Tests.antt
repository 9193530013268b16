-- ===== src/Usb/Tests.antt =====
-- The message ring and the interrupt descriptor on small states.
use carl9170fw.Base.{ℕ, ◌≡◌, refl, [], ◌∷◌, some, arith, replicate, drop, set, true}
use carl9170fw.Usb.{
  Rsp, Usb, blank, int_rq_caches, max_payload, send_cmd_to_host, get_int_buf, dequeue_int_buf, Host,
  usb_status_in,
}
use carl9170fw.Usb.Fifo.{IsValid, IsSized, IsFilled, messages, composed, send_cmd_to_host-messages}
use carl9170fw.Usb.Overflow.{send_cmd_to_host-overtakes}
use carl9170fw.Dma.{Desc, update}
use carl9170fw.Usb.Sent.{IsReady, Sent, usb_status_in-Sent}

-- Four bytes of payload with the sequence number `s`.
abbrev note : ℕ → Rsp
note s = record { len = 4; cmd = 0xc3; seq = s; ext = 0; body = replicate max_payload s }

-- One message waits in the last slot.
abbrev one_waits : Usb
one_waits = record {
  int_pending = 1;
  int_head_index = 15;
  int_tail_index = 0;
  int_buf = set (replicate int_rq_caches blank) 15 (note 15);
  int_desc_available = true;
  in_triggers = 0;
}

-- All slots are taken, the oldest message in slot 3.
abbrev all_wait : Usb
all_wait = record one_waits { int_pending = int_rq_caches; int_head_index = 3; int_tail_index = 3 }

one_waits-IsValid : IsValid one_waits
one_waits-IsValid = omega arith

all_wait-IsValid : IsValid all_wait
all_wait-IsValid = omega arith

one_waits-IsSized : IsSized one_waits
one_waits-IsSized = (
  refl,
  (
    refl,
    (
      refl,
      (
        refl,
        (
          refl,
          (
            refl,
            (refl, (refl, (refl, (refl, (refl, (refl, (refl, (refl, (refl, (refl, tt)))))))))),
          ),
        ),
      ),
    ),
  ),
)

send_cmd_to_host-messages_example :
    (m : Rsp) × (messages (send_cmd_to_host 4 0xc3 0 (1 ∷ 2 ∷ 3 ∷ 4 ∷ []) one_waits)
      ≡ note 15 ∷ m ∷ [])
    × IsFilled 4 0xc3 0 0 (1 ∷ 2 ∷ 3 ∷ 4 ∷ []) m
send_cmd_to_host-messages_example =
    send_cmd_to_host-messages 4 0xc3 0 (1 ∷ 2 ∷ 3 ∷ 4 ∷ []) one_waits one_waits-IsValid
      one_waits-IsSized (omega arith) (omega arith) (omega arith)

send_cmd_to_host-overtakes_example :
    (m : Rsp) × (messages (send_cmd_to_host 4 0xc3 0 (1 ∷ 2 ∷ 3 ∷ 4 ∷ []) all_wait)
      ≡ m ∷ drop 1 (messages all_wait))
    × IsFilled 4 0xc3 0 3 (1 ∷ 2 ∷ 3 ∷ 4 ∷ []) m
send_cmd_to_host-overtakes_example =
    send_cmd_to_host-overtakes 4 0xc3 0 (1 ∷ 2 ∷ 3 ∷ 4 ∷ []) all_wait all_wait-IsValid refl
      one_waits-IsSized (omega arith) (omega arith)

abbrev cleared : Desc
cleared = record {
  status = 0;
  ctrl = 0;
  data_size = 0;
  total_len = 0;
  last_addr = 0;
  data_addr = 0;
  next_addr = 0;
}

-- The interrupt descriptor at 50, and an empty up queue that ends at 100.
abbrev waiting : Host
waiting = record {
  usb = one_waits;
  heap =
      update (λ a. cleared) 50
        (record cleared { last_addr = 50; data_addr = 7000; next_addr = 50; data_size = 320 });
  up_queue = record { head = 100; terminator = 100 };
  int_desc = 50;
  payload = replicate 320 255;
  events = [];
}

waiting-IsReady : IsReady waiting []
waiting-IsReady = record {
  queue = record { linked = refl; distinct = (tt, tt) };
  alone = refl;
  apart = ((λ e. absurd (omega arith)), tt);
}

usb_status_in-Sent_example :
    (s' : Host) × (usb_status_in 2 waiting ≡ some s') × Sent waiting [] (note 15 ∷ []) s'
usb_status_in-Sent_example =
    usb_status_in-Sent 2 waiting [] (note 15) [] refl refl (omega arith) one_waits-IsValid
      ((refl, omega arith), tt) (omega arith) waiting-IsReady

-- The first message to leave after an overflow is the newest.
newest_first :
    (dequeue_int_buf 308 (send_cmd_to_host 0 0xcf 7 [] all_wait)).0
    ≡ some (composed 0 0xcf 7 [] all_wait)
unfolding dequeue_int_buf send_cmd_to_host get_int_buf
newest_first = refl
