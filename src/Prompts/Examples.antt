-- ===== src/Prompts/Examples.antt =====
-- `_EXAMPLE_SOLUTIONS` of services/llm/prompts.py, line by line.
use mts_true_tech_hack.Base.{String, List, [], ◌∷◌}

abbrev pub example_lines : List String
example_lines =
    "EXAMPLE SOLUTIONS FROM PAST TASKS:\n" ∷ "\n" ∷ "Example 0 — Standalone Fibonacci:\n"
    ∷ "Request: \"Напиши Lua код, который возвращает 10 число Фибоначчи\"\n"
    ∷ "Input: no workflow context\n" ∷ "\n" ∷ "Solution:\n" ∷ "local function fibonacci(n)\n"
    ∷ "    if n <= 0 then\n" ∷ "        return 0\n" ∷ "    end\n" ∷ "    if n == 1 then\n"
    ∷ "        return 1\n" ∷ "    end\n" ∷ "\n" ∷ "    local prev, curr = 0, 1\n"
    ∷ "    for _ = 2, n do\n" ∷ "        prev, curr = curr, prev + curr\n" ∷ "    end\n"
    ∷ "    return curr\n" ∷ "end\n" ∷ "\n" ∷ "return fibonacci(10)\n" ∷ "\n" ∷ "---\n" ∷ "\n"
    ∷ "Example 1 — Ensure all items in ZCDF_PACKAGES are arrays:\n"
    ∷ "Request: \"Как преобразовать структуру данных так, чтобы все элементы items в ZCDF_PACKAGES всегда были представлены в виде массивов, даже если они изначально не являются массивами\"\n"
    ∷ "Input: wf.vars.json.IDOC.ZCDF_HEAD.ZCDF_PACKAGES\n" ∷ "\n" ∷ "Solution:\n"
    ∷ "local function ensure_array(value)\n" ∷ "    if type(value) ~= \"table\" then\n"
    ∷ "        local arr = _utils.array.new()\n" ∷ "        arr[1] = value\n"
    ∷ "        return arr\n" ∷ "    end\n" ∷ "    local is_array = true\n"
    ∷ "    for k, _ in pairs(value) do\n"
    ∷ "        if type(k) ~= \"number\" or math.floor(k) ~= k then\n"
    ∷ "            is_array = false\n" ∷ "            break\n" ∷ "        end\n" ∷ "    end\n"
    ∷ "    if is_array then\n" ∷ "        return _utils.array.markAsArray(value)\n" ∷ "    end\n"
    ∷ "    local arr = _utils.array.new()\n" ∷ "    arr[1] = value\n" ∷ "    return arr\n" ∷ "end\n"
    ∷ "\n" ∷ "local function transform_packages()\n"
    ∷ "    local packages = wf.vars.json.IDOC.ZCDF_HEAD.ZCDF_PACKAGES\n"
    ∷ "    if type(packages) ~= \"table\" then\n" ∷ "        return packages\n" ∷ "    end\n" ∷ "\n"
    ∷ "    for _, pkg in ipairs(packages) do\n"
    ∷ "        if type(pkg) == \"table\" and pkg.items ~= nil then\n"
    ∷ "            pkg.items = ensure_array(pkg.items)\n" ∷ "        end\n" ∷ "    end\n" ∷ "\n"
    ∷ "    return _utils.array.markAsArray(packages)\n" ∷ "end\n" ∷ "\n"
    ∷ "return transform_packages()\n" ∷ "\n" ∷ "---\n" ∷ "\n"
    ∷ "Example 2 — Filter rows by Discount or Markdown:\n"
    ∷ "Request: \"Отфильтруй элементы из массива, чтобы включить только те, у которых есть значения в полях Discount или Markdown.\"\n"
    ∷ "Input: wf.initVariables.parsedCsv\n" ∷ "\n" ∷ "Solution:\n"
    ∷ "local result = _utils.array.new()\n" ∷ "local items = wf.initVariables.parsedCsv or {}\n"
    ∷ "for _, item in ipairs(items) do\n"
    ∷ "    if type(item) == \"table\" and ((item.Discount ~= \"\" and item.Discount ~= nil) or (item.Markdown ~= \"\" and item.Markdown ~= nil)) then\n"
    ∷ "        table.insert(result, item)\n" ∷ "    end\n" ∷ "end\n" ∷ "return result\n" ∷ "\n"
    ∷ "---\n" ∷ "\n" ∷ "Example 3 — Mark an existing table as array after transformation:\n"
    ∷ "Request: \"Верни массив заказов с непустым id\"\n" ∷ "Input: wf.vars.orders\n" ∷ "\n"
    ∷ "Solution:\n" ∷ "local filtered = {}\n" ∷ "for _, order in ipairs(wf.vars.orders or {}) do\n"
    ∷ "    if type(order) == \"table\" and order.id ~= nil and order.id ~= \"\" then\n"
    ∷ "        table.insert(filtered, order)\n" ∷ "    end\n" ∷ "end\n"
    ∷ "return _utils.array.markAsArray(filtered)\n" ∷ "\n" ∷ "---\n" ∷ "\n"
    ∷ "Example 4 — Sum a numeric array from context:\n"
    ∷ "Request: \"Посчитай сумму всех чисел в массиве numbers\"\n" ∷ "Input: wf.vars.numbers\n"
    ∷ "\n" ∷ "Solution:\n" ∷ "local numbers = wf.vars.numbers or {}\n" ∷ "local total = 0\n"
    ∷ "for _, value in ipairs(numbers) do\n" ∷ "    if type(value) == \"number\" then\n"
    ∷ "        total = total + value\n" ∷ "    end\n" ∷ "end\n" ∷ "return total\n" ∷ "\n" ∷ "---\n"
    ∷ "\n" ∷ "Example 5 — Return object keys:\n"
    ∷ "Request: \"Получить массив всех ключей из объекта config\"\n" ∷ "Input: wf.vars.config\n"
    ∷ "\n" ∷ "Solution:\n" ∷ "local config = wf.vars.config or {}\n"
    ∷ "local keys = _utils.array.new()\n" ∷ "for key, _ in pairs(config) do\n"
    ∷ "    table.insert(keys, key)\n" ∷ "end\n" ∷ "return _utils.array.markAsArray(keys)\n" ∷ "\n"
    ∷ "---\n" ∷ "\n" ∷ "Example 6 — Map array objects to a new structure:\n"
    ∷ "Request: \"Верни массив пользователей только с полями id и name\"\n"
    ∷ "Input: wf.vars.users\n" ∷ "\n" ∷ "Solution:\n" ∷ "local users = wf.vars.users or {}\n"
    ∷ "local result = _utils.array.new()\n" ∷ "for _, user in ipairs(users) do\n"
    ∷ "    if type(user) == \"table\" then\n" ∷ "        table.insert(result, {\n"
    ∷ "            id = user.id,\n" ∷ "            name = user.name\n" ∷ "        })\n"
    ∷ "    end\n" ∷ "end\n" ∷ "return _utils.array.markAsArray(result)\n" ∷ "\n" ∷ "---\n" ∷ "\n"
    ∷ "Example 7 — Standalone boolean result:\n"
    ∷ "Request: \"Напиши Lua код, который проверяет, является ли число 42 четным\"\n"
    ∷ "Input: no workflow context\n" ∷ "\n" ∷ "Solution:\n" ∷ "local value = 42\n"
    ∷ "return value % 2 == 0\n" ∷ []
