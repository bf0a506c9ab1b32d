-- ===== src/Net/SocketStream/Tests.antt =====
-- Runs of the theorems about SocketStream. The wire takes three bytes of any offer of so many, and
-- gives five.
use lo_netfw.Base.{
  ℕ, ◌+◌, ◌-◌, ◌/◌, ◌≡◌, refl, arith, true, false, List, [], ◌∷◌, none, some, length, min, take,
}
use lo_netfw.Base.Int.{pos, negsuc}
use lo_netfw.Util.Endian.{big}
use lo_netfw.Util.ByteArray.Defs.{ByteArray, CeilFloat, fetch}
use lo_netfw.Util.ByteArray.Cells.{byte, slice}
use lo_netfw.Net.Socket.{Socket}
use lo_netfw.Net.Socket.Transfer.{Wire}
use lo_netfw.Net.SocketStream.{SocketStream, read_array, write_array}
use lo_netfw.Net.SocketStream.Sends.{joined, SendsWithin, Sent, write_array-Sent}
use lo_netfw.Net.SocketStream.Receives.{total, ReceivesWithin, Got, length-take-le, read_array-Got}

abbrev five : List ℕ
five = 1 ∷ 2 ∷ 3 ∷ 4 ∷ 5 ∷ []

-- The state of the system is the bytes that were sent.
abbrev wire : Wire (List ℕ)
wire = record {
  send = λ n bytes flags w. (negsuc 0, w);
  sendto = λ n bytes dst flags w. (negsuc 0, w);
  sendmsg = λ n bufs dst flags w. (pos (min 3 (length (joined bufs))), take 3 (joined bufs));
  recv = λ n len flags w. (none, w);
  recvfrom = λ n len src flags w. (none, w);
  recvmsg = λ n lens src flags w. (some (take (total lens) five, []), w);
}

sends_within : SendsWithin wire
sends_within = record { within = λ n bufs dst flags w. omega arith }

receives_within : ReceivesWithin wire
receives_within = record { within = λ n lens src flags w. length-take-le (total lens) five }

abbrev ceil_exact : CeilFloat
ceil_exact = record {
  ceil_quot = λ size node. (size + node - 1) / node;
  exact = λ size node h pos small. refl;
}

-- Six bytes in nodes of four, of which two have been read.
abbrev array : ByteArray
array = record {
  node_size = 4;
  mem = λ i j. 10 + (i + j);
  count = 2;
  cur = 0;
  total_size = 8;
  data_size = 6;
  position = 2;
  ba_endian = big;
}

abbrev socket : Socket
socket = record {
  sockfd = some 5;
  family = 2;
  kind = 1;
  protocol = 0;
  is_connected = true;
  local_addr = none;
  peer_addr = none;
}

abbrev stream : SocketStream
stream = record { socket = some socket; proxy = true; eof = false }

write_array_runs : (write_array wire 9 stream array []).system ≡ 12 ∷ 13 ∷ 11 ∷ []
unfolding write_array fetch
write_array_runs = refl

write_array-Sent_example :
    Sent wire socket [] array
      (slice (byte array) 2 (min 9 (6 - 2)))
      (write_array wire 9 stream array [])
write_array-Sent_example =
    write_array-Sent wire sends_within 9 socket stream array [] refl refl (omega arith)

read_array-Got_example : Got wire socket [] array 9 (read_array wire ceil_exact 9 stream array [])
read_array-Got_example =
    read_array-Got wire receives_within ceil_exact 9 socket stream array [] refl refl (omega arith)
      (omega arith) (omega arith)
