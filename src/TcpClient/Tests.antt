-- ===== src/TcpClient/Tests.antt =====
-- Runs of TcpClient.cc in thread 1.
use simplev.Prelude.{
  ◌+◌, ◌-◌, ◌^◌, ◌<◌, arith, length, ◌++◌, none, ◌≡◌, ◌≤◌, refl, true, false, [], ◌∷◌, some, ok,
  err, assertion, ◌&&◌, ltb, leb, count, if◌then◌else◌,
}
use simplev.Channel
use simplev.Connector
use simplev.Connector.{no_error, econnrefused}
use simplev.TcpClient.{
  TcpClient, init, connect, connections, is_connection, remove_connection, write, handle_event,
  deliver, new_connection, disconnect, enable_retry, destroy, stop,
}
use simplev.TcpClient.Single.{without_connection}
use simplev.TcpClient.History.{
  Reach, here, next, connects, handles, Reach-count, remove_connection-connect,
}

-- It connects to its server with socket 5.
trying : (c : TcpClient) × (connect 1 5 no_error (init 1) ≡ ok c)
unfolding connect init Connector.start Connector.start_in_loop Connector.connect
    Connector.connecting_socket Connector.verdict Connector.init
trying = (_, refl)

connected : (c : TcpClient) × (handle_event 1 (write false false) trying.0 ≡ ok c)
unfolding trying init handle_event Connector.handle_write Connector.remove_and_reset_channel
    Channel.remove Channel.stop connect Connector.start Connector.start_in_loop Connector.connect
    Connector.connecting_socket Connector.verdict Connector.init deliver new_connection
connected = (_, refl)

connected-Reach : Reach (init 1) connected.0
unfolding trying connected
connected-Reach =
    next (next here (connects 1 5 no_error trying.1)) (handles (write false false) connected.1)

connected_few : length connected.0.established < 2 ^ 31 - 1
unfolding connected trying init handle_event Connector.handle_write
    Connector.remove_and_reset_channel Channel.remove Channel.stop connect Connector.start
    Connector.start_in_loop Connector.connect Connector.connecting_socket Connector.verdict
    Connector.init deliver new_connection
connected_few = omega arith

Reach-count_example :
    (count 1 connected.0.established ≡ (if leb 1 1 && ltb 1 connected.0.next_conn_id then 1 else 0))
    × (count 1 connected.0.established
        ≡ count 1 (connections connected.0.connection) + count 1 connected.0.destroyed)
    × (1 ≤ count 1 connected.0.established
        → count 1 connected.0.destroyed ≡ 0
        → is_connection connected.0.connection 1 ≡ true)
    × (let d = destroy 2 connected.0 in
        (count 1 d.established ≡ count 1 (d.detached ++ d.queued) + count 1 d.destroyed)
        × (connected.0.connection ≡ none → d.connector.connect ≡ false))
Reach-count_example = Reach-count 1 connected-Reach connected_few 2 1

remove_connection-connect_example :
    (remove_connection 1 6 no_error 1 connected.0 ≡ ok (without_connection connected.0 1))
    × (connect 1 6 no_error (without_connection connected.0 1) ≡ err assertion)
unfolding connected trying init handle_event Connector.handle_write
    Connector.remove_and_reset_channel Channel.remove Channel.stop connect Connector.start
    Connector.start_in_loop Connector.connect Connector.connecting_socket Connector.verdict
    Connector.init deliver new_connection
remove_connection-connect_example =
    remove_connection-connect 1 6 1 no_error connected-Reach refl refl refl refl

-- A client that retries asks its connector for another socket.
again :
    (c : TcpClient) × (remove_connection 1 6 no_error 1 (record (enable_retry connected.0) {
      connector = Connector.reset_channel connected.0.connector;
    })
      ≡ ok c)
unfolding connected trying init handle_event Connector.handle_write
    Connector.remove_and_reset_channel Channel.remove Channel.stop connect Connector.start
    Connector.start_in_loop Connector.connect Connector.connecting_socket Connector.verdict
    Connector.init deliver new_connection remove_connection Connector.restart
    Connector.reset_channel
again = (_, refl)

-- A client that goes away in another thread leaves the callback of its connection for the loop.
left : (destroy 2 (record (init 1) { connection = some 1 })).queued ≡ 1 ∷ []
unfolding destroy init
left = refl

gave_up : (stop (init 1)).connector.connect ≡ false
unfolding stop init Connector.stop
gave_up = refl

ended : (disconnect (record (init 1) { connection = some 1 })).shut_down ≡ 1 ∷ []
unfolding disconnect init
ended = refl
