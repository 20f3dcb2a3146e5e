-- ===== src/Net/AsyncSocket/Tests.antt =====
-- The theorems about AsyncSocket.cc over a network that is a list of bytes on their way, with
-- secret boxes of the right length that hide nothing.
use mkw_sp.Base.{
  ℕ, zero, suc, ◌≡◌, ◌≤◌, arith, refl, List, [], ◌∷◌, ◌++◌, some, none, true, replicate, length,
  length-append, take, drop, length-take,
}
use mkw_sp.Bytes.{read16, write16}
use mkw_sp.Net.{Platform, PlatformLaws, ConnectResult, RecvResult, SendResult}
use mkw_sp.Net.Task.{Task, new_task, blit, recv, on_recv}
use mkw_sp.Net.State.{AsyncSocket}
use mkw_sp.Net.Transfer.{read_task, read_size, on_size, read_body}
use mkw_sp.Net.Transfer.Framing.{IsRead, Frames, new_task-IsRead, read_task-Frames}
use mkw_sp.Net.AsyncSocket.{poll, ready, read, write, Read}
use mkw_sp.Net.AsyncSocket.Ready.{ready-poll}
use mkw_sp.Net.AsyncSocket.Stall.{IsStuck, polls, polls-stuck}
use mkw_sp.Net.AsyncSocket.Messages.{Connected, frame, read-write}

abbrev test_recv : ℕ → List ℕ → RecvResult × List ℕ
test_recv zero w = (RecvResult.again, w)
test_recv (suc n) [] = (RecvResult.again, [])
test_recv (suc n) (b ∷ w) = (RecvResult.received (take (suc n) (b ∷ w)), drop (suc n) (b ∷ w))

abbrev test_platform : Platform
test_platform = record {
  World = List ℕ;
  connect = λ address w. (ConnectResult.connected, w);
  recv = test_recv;
  send = λ bytes w. (SendResult.sent (length bytes), w);
  Keypair = Unit {0};
  Exchange = Unit {0};
  Session = Unit {0};
  kx_xx_2 = λ x k packet1. none;
  kx_xx_3 = λ x k packet2. none;
  kx_xx_4 = λ x packet3. none;
  encrypt = λ s context id bytes. some (replicate 36 0 ++ bytes);
  decrypt = λ s context id sealed. some (drop 36 sealed);
}

test_recv_size :
    (n : ℕ) (w w' bytes : List ℕ)
    → test_recv n w ≡ (RecvResult.received bytes, w')
    → (1 ≤ length bytes) × (length bytes ≤ n)
test_recv_size zero w w' bytes e = cc
test_recv_size (suc n) [] w' bytes e = cc
test_recv_size (suc n) (b ∷ w) w' bytes e = ground (arith, length-take (suc n) (b ∷ w))

test_laws : PlatformLaws test_platform
test_laws = record {
  recv_size = test_recv_size;
  send_size = λ bytes w w' n e. ground arith;
  xx_2_size = λ x x' k a b e. cc;
  xx_3_size = λ x x' k s a b e. cc;
}

abbrev idle : AsyncSocket test_platform
idle = record {
  is_open = true;
  session = tt;
  context = [];
  connect_task = none;
  init_task = none;
  read_message_id = 0;
  write_message_id = 0;
  read_queue = [];
  write_queue = [];
}

idle-ready : ready test_platform idle ≡ true
unfolding ready
idle-ready = refl

-- A message of one byte, all of it.
abbrev small : Task
small = record { buffer = blit new_task.buffer 0 (0 ∷ 1 ∷ 9 ∷ []); size = 1; offset = 3 }

read_task-small : read_task test_platform new_task (0 ∷ 1 ∷ 9 ∷ []) ≡ (true, small, [])
unfolding read_task read_size on_size read_body recv on_recv read16
read_task-small = refl

read_task-Frames_example : Frames test_platform new_task (0 ∷ 1 ∷ 9 ∷ []) small []
read_task-Frames_example =
    read_task-Frames test_laws new_task small (0 ∷ 1 ∷ 9 ∷ []) [] new_task-IsRead read_task-small

ready-poll_example : ready test_platform (poll test_platform idle (1 ∷ [])).1 ≡ true
ready-poll_example = ready-poll test_platform idle (1 ∷ []) idle-ready

-- A message of five bytes, of which three have come.
abbrev late : Task
late = record { buffer = blit new_task.buffer 0 (0 ∷ 5 ∷ 1 ∷ 2 ∷ 3 ∷ []); size = 5; offset = 5 }

read_task-late : read_task test_platform new_task (0 ∷ 5 ∷ 1 ∷ 2 ∷ 3 ∷ []) ≡ (true, late, [])
unfolding read_task read_size on_size read_body recv on_recv read16
read_task-late = refl

abbrev stuck : AsyncSocket test_platform
stuck = record idle { read_queue = late ∷ [] }

stuck-ready : ready test_platform stuck ≡ true
unfolding ready
stuck-ready = refl

late-IsStuck : IsStuck late
late-IsStuck = record {
  started = omega arith;
  sized = omega arith;
  late = omega arith;
  partial = omega arith;
}

-- The two bytes that are missing wait in the network.
polls-stuck_example : (polls test_platform 3 stuck (4 ∷ 5 ∷ [])).read_queue ≡ late ∷ []
polls-stuck_example =
    polls-stuck test_platform late late-IsStuck 3 stuck (4 ∷ 5 ∷ []) stuck-ready refl

abbrev sealed_seven : List ℕ
sealed_seven = replicate 36 0 ++ 7 ∷ []

abbrev written : AsyncSocket test_platform
written = record idle { write_message_id = 1; write_queue = frame 39 sealed_seven ∷ [] }

write-seven : write test_platform idle (7 ∷ []) ≡ some (true, written)
unfolding write ready write16
write-seven = refl

abbrev arrived : Task
arrived = record (frame 39 sealed_seven) { size = 37; offset = 39 }

arrived-IsRead : IsRead arrived
unfolding read16 write16
arrived-IsRead = record {
  storage = refl;
  bound = omega arith;
  unread = λ q. absurd (omega arith);
  within = omega arith;
  size_eq = λ q. refl;
}

abbrev receiver : AsyncSocket test_platform
receiver = record idle { read_queue = arrived ∷ [] }

idle-Connected : Connected idle receiver
idle-Connected = record {
  opens = λ id bytes sealed e.
      let q : replicate 36 0 ++ bytes ≡ sealed = cc in
      rw (← q) (omega (arith, length-append (replicate 36 0) bytes), refl);
}

read-write_example :
    read test_platform receiver 4 ≡ (Read.message 1 (7 ∷ []), record idle { read_message_id = 1 })
read-write_example =
    read-write idle written receiver (7 ∷ []) 4 (frame 39 sealed_seven) arrived [] idle-Connected
      write-seven refl refl arrived-IsRead refl refl refl (omega arith)
