-- ===== src/OrderData/Messages.antt =====
-- The text of the messages that the engine sends: the operators of order_data.cpp for `ostringstream`.
use moboware.Base.{Text, codes, ◌++◌}
use moboware.OrderData.{OrderReply, Trade, ErrorReply}
use moboware.OrderData.Wire.{to_string}

unfoldable pub order_reply_text : OrderReply → Text
order_reply_text r =
    codes "{\"OrderReply\":{\"Id\":\""
    ++ (r.id ++ (codes "\",\"ClientId\":\"" ++ (r.client_id ++ codes "\"}}")))

unfoldable pub trade_text : Trade → Text
unfolding to_string
trade_text t =
    codes "{\"Trade\":,\"Id\":\""
    ++ (t.id
        ++ (codes "\"{\"ClientId\":\""
            ++ (t.client_id
                ++ (codes "\",\"Account\":\""
                    ++ (t.account
                        ++ (codes "\",\"TradedPrice\":"
                            ++ (to_string t.traded_price
                                ++ (codes ",\"TradedVolume\":"
                                    ++ (to_string t.traded_volume ++ codes "}}")))))))))

unfoldable pub error_reply_text : ErrorReply → Text
error_reply_text e =
    codes "{\"ErrorReply\":{\"ClientId\":\""
    ++ (e.client_id ++ (codes "\",\"Error\":" ++ (e.error_message ++ codes "}}")))
