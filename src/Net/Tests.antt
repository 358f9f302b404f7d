-- ===== src/Net/Tests.antt =====
-- net.c: one port with a packet.
use cs3500_os.Base.{◌%◌, ◌^◌, ◌≡◌, refl, true, false, some, [], ◌∷◌, arith, ◌==◌, if◌then◌else◌}
use cs3500_os.Net.{
  PendingPacket, UdpTable, find_loop, find_bound_port, sys_bind, Frame, ip_rx, takes, sys_recv,
}
use cs3500_os.Net.Ports.{queues}
use cs3500_os.Net.Queue.{IsTable, delivered, queues-ip_rx, Receives, sys_recv-Receives}
use cs3500_os.Net.Bounds.{udp_keeps}

abbrev packet_of_two : PendingPacket
packet_of_two = record { bytes = 104 ∷ 105 ∷ []; src_ip = 1; src_port = 9 }

-- Port 2000 is bound.
abbrev one_port : UdpTable
one_port = record {
  ports = λ i. record { port = 2000; pending_count = 1; pending = packet_of_two ∷ [] };
  port_count = 1;
}

one_port-IsTable : IsTable one_port
one_port-IsTable = record {
  fits = omega arith;
  counts = λ i lt. refl;
  bounded = λ i lt. omega arith;
}

abbrev frame_of_three : Frame
frame_of_three = record {
  len = 45;
  ulen = 11;
  dport = 2000;
  ip_src = 7;
  sport = 9;
  payload = λ i. i;
}

queues-ip_rx_example : queues (ip_rx true frame_of_three one_port).1 2000 ≡ (
    if 2000 == 2000
    then delivered true frame_of_three (queues one_port 2000)
    else queues one_port 2000)
queues-ip_rx_example = queues-ip_rx true frame_of_three one_port one_port-IsTable 2000

sys_recv-Receives_example :
    Receives false true
      (2000 % 2 ^ 16)
      100
      one_port
      (queues one_port (2000 % 2 ^ 16))
      (sys_recv false true 2000 100 one_port)
sys_recv-Receives_example = sys_recv-Receives false true 2000 100 one_port

udp_keeps_example :
    IsTable (sys_bind 2001 one_port).1
    × IsTable (ip_rx true frame_of_three one_port).1
    × IsTable (sys_recv false true 2001 100 one_port).1
udp_keeps_example = udp_keeps 2001 100 false true true frame_of_three one_port one_port-IsTable

-- The oldest packet leaves first.
received :
    (sys_recv false true 2000 1 (ip_rx true frame_of_three one_port).1).0
    ≡ takes packet_of_two (some 1)
unfolding sys_recv ip_rx find_bound_port find_loop
received = refl
